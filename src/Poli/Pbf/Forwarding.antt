-- ===== src/Poli/Pbf/Forwarding.antt =====
-- What a rule of policy-based forwarding can say, and that it survives the XML structs.
use pango.Base.{
  String, List, true, false, not, ◌||◌, Option, none, some, items, is_empty, ◌≡◌, refl, sym, ◌==◌,
  eq_iff, arith, Bool-cases, inl, inr,
}
use pango.Util.Flag.{as_bool-yes_no}
use pango.Util.Member.{mem_to_str, str_to_mem, mem_to_str-str_to_mem, ent_to_str-str_to_ent}
use pango.Version.{Number, gte}
use pango.Poli.Pbf.{
  from_type_zone, from_type_interface, next_hop_ip_address, next_hop_fqdn, action_forward,
  action_vsys_forward, action_discard, action_no_pbf,
}
use pango.Poli.Pbf.Parts.{
  From, Hop, Monitor, Action, Return, no_from, no_hop, no_action, read_from, write_zones,
  write_interfaces, read_hop_v1, read_hop_v2, write_hop_v1, write_hop_v2, read_monitor,
  write_monitor, read_action, write_action, read_return, write_return, read_forward, forward_of,
}
use pango.Poli.Pbf.Xml.{fqdn_since}

-- Where the traffic comes from.
pub data Source : Type 0 where
  anywhere : Source
  zones interfaces : List String → Source

abbrev pub source_from : Source → From
source_from anywhere = no_from
source_from (zones l) = record { type = from_type_zone; values = some l }
source_from (interfaces l) = record { type = from_type_interface; values = some l }

pub read_from-write :
    (t : Source)
    → read_from (write_zones (source_from t)) (write_interfaces (source_from t)) ≡ source_from t
unfolding read_from write_zones write_interfaces mem_to_str str_to_mem
read_from-write anywhere = refl
read_from-write (zones l) =
    λ i. record { type = from_type_zone; values = mem_to_str-str_to_mem (some l) i }
read_from-write (interfaces l) =
    λ i. record { type = from_type_interface; values = mem_to_str-str_to_mem (some l) i }

-- The next hop.
pub data NextHop : Type 0 where
  no_next_hop : NextHop
  ip_address fqdn : String → NextHop

abbrev pub hop_of : NextHop → Hop
hop_of no_next_hop = no_hop
hop_of (ip_address v) = record { type = next_hop_ip_address; value = v }
hop_of (fqdn v) = record { type = next_hop_fqdn; value = v }

-- A next hop of a type has a value, and one of a name is to a version that knows it.
abbrev pub IsKnown : Number → NextHop → Type 0
IsKnown version no_next_hop = Unit
IsKnown version (ip_address v) = (v == "") ≡ false
IsKnown version (fqdn v) = ((v == "") ≡ false) × (gte version fqdn_since ≡ true)

pub read_hop-write_v1 :
    (version : Number) (h : NextHop)
    → gte version fqdn_since ≡ false
    → IsKnown version h
    → read_hop_v1 (write_hop_v1 (hop_of h)) ≡ hop_of h
unfolding read_hop_v1 write_hop_v1
read_hop-write_v1 version no_next_hop old k = refl
read_hop-write_v1 version (ip_address v) old k = rw k refl
read_hop-write_v1 version (fqdn v) old k = absurd (ground (arith, k.1, old))

pub read_hop-write_v2 :
    (version : Number) (h : NextHop)
    → IsKnown version h
    → read_hop_v2 (write_hop_v2 (hop_of h)) ≡ hop_of h
unfolding read_hop_v2 write_hop_v2
read_hop-write_v2 version no_next_hop k = refl
read_hop-write_v2 version (ip_address v) k = rw k refl
read_hop-write_v2 version (fqdn v) k = rw k.0 refl

monitor_lem : (m : Monitor) → read_monitor (write_monitor m) ≡ m
unfolding read_monitor write_monitor
monitor_lem m =
    elim (Bool-cases
      (not (m.profile == "") || not (m.ip_address == "") || m.disable_if_unreachable)) [
        | inl e ↦ rw e (λ i. record {
          profile = m.profile;
          ip_address = m.ip_address;
          disable_if_unreachable = as_bool-yes_no m.disable_if_unreachable i;
        })
        | inr e ↦
            let p : "" ≡ m.profile = sym ((eq_iff m.profile "").0 (ground (arith, e))) in
            let a : "" ≡ m.ip_address = sym ((eq_iff m.ip_address "").0 (ground (arith, e))) in
            let d : false ≡ m.disable_if_unreachable = ground (arith, e) in
            rw e (λ i. record { profile = p i; ip_address = a i; disable_if_unreachable = d i })
      ]

-- The actions.
pub data Verdict : Type 0 where
  no_verdict discard no_pbf : Verdict
  to_vsys : String → Verdict
  forward : String → NextHop → Monitor → Verdict

abbrev pub verdict_action : Verdict → Action
verdict_action no_verdict = no_action
verdict_action discard = record no_action { action = action_discard }
verdict_action no_pbf = record no_action { action = action_no_pbf }
verdict_action (to_vsys v) = record no_action { action = action_vsys_forward; vsys = v }
verdict_action (forward interface hop m) = record {
  action = action_forward;
  vsys = "";
  egress_interface = interface;
  hop = hop_of hop;
  monitor = m;
}

abbrev pub IsVerdict : Number → Verdict → Type 0
IsVerdict version (forward interface hop m) = IsKnown version hop
IsVerdict version _ = Unit

module _ {N : Type 0} (read_hop : Option N → Hop) (write_hop : Hop → Option N) (version : Number)
    (hops : (h : NextHop) → IsKnown version h → read_hop (write_hop (hop_of h)) ≡ hop_of h) where
  pub read_action-write :
      (v : Verdict)
      → IsVerdict version v
      → read_action read_hop (write_action write_hop (verdict_action v)) ≡ verdict_action v
  unfolding read_action write_action read_forward forward_of
  read_action-write no_verdict k = refl
  read_action-write discard k = refl
  read_action-write no_pbf k = refl
  read_action-write (to_vsys v) k = refl
  read_action-write (forward interface hop m) k = λ i. record {
    action = action_forward;
    vsys = "";
    egress_interface = interface;
    hop = hops hop k i;
    monitor = monitor_lem m i;
  }

-- Addresses are given with the symmetric return, or not at all.
abbrev pub IsReturn : Return → Type 0
IsReturn r = (r.enabled || not (is_empty (items r.addresses))) ≡ false → r.addresses ≡ none

pub read_return-write : (r : Return) → IsReturn r → read_return (write_return r) ≡ r
unfolding read_return write_return
read_return-write r k = elim (Bool-cases (r.enabled || not (is_empty (items r.addresses)))) [
  | inl e ↦ rw e (λ i. record {
    enabled = as_bool-yes_no r.enabled i;
    addresses = ent_to_str-str_to_ent r.addresses i;
  })
  | inr e ↦
      let d : false ≡ r.enabled = ground (arith, e) in
      rw e (λ i. record { enabled = d i; addresses = sym (k e) i })
]
