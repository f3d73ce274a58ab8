-- ===== src/Poli/Pbf/Tests.antt =====
-- The rules of policy-based forwarding at concrete inputs.
use pango.Base.{[], ◌∷◌, some, pos, ◌≡◌, refl}
use pango.Version.{Number}
use pango.Poli.Pbf.{Entry, no_entry, from_type_zone, action_forward, next_hop_ip_address}
use pango.Poli.Pbf.Parts.{no_monitor}
use pango.Poli.Pbf.Xml.{specify, normalize}
use pango.Poli.Pbf.Forwarding.{zones, forward, ip_address}
use pango.Poli.Pbf.RoundTrip.{IsSound, normalize-specify_pbf}

abbrev version : Number
version = record { major = pos 8; minor = pos 1; patch = pos 3; suffix = "" }

abbrev rule : Entry
rule = record no_entry {
  name = "p1";
  from_type = from_type_zone;
  from_values = some ("trust" ∷ "dmz" ∷ []);
  action = action_forward;
  forward_egress_interface = "ethernet1/2";
  forward_next_hop_type = next_hop_ip_address;
  forward_next_hop_value = "10.1.1.1";
}

abbrev rule-IsSound : IsSound version rule
rule-IsSound = record {
  source = zones ("trust" ∷ "dmz" ∷ []);
  from = refl;
  verdict = forward "ethernet1/2" (ip_address "10.1.1.1") no_monitor;
  action = refl;
  known = refl;
  returned = λ off. refl;
  distinct = tt;
  targets = refl;
  uuid = λ old. refl;
}

normalize-specify_pbf_example : normalize (specify version rule) ≡ rule
normalize-specify_pbf_example = normalize-specify_pbf version rule rule-IsSound
