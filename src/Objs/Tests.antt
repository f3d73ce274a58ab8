-- ===== src/Objs/Tests.antt =====
-- Address and service objects at concrete inputs.
use pango.Base.{none, All, arith, ◌≡◌, if◌then◌else◌, some, [], ◌∷◌, pos, true, refl}
use pango.Version.{Number, gte}
use pango.Entries.{Con, Operations}
use pango.Entries.Device.{State, device, device-IsDevice, held-device}
use pango.Objs.Addr as Addr
use pango.Objs.Addr.Access as Access
use pango.Objs.Addr.Access.{get-set_addr}
use pango.Objs.Addr.RoundTrip.{is_known, lost, normalize-specify_addr}
use pango.Objs.Srvc as Srvc
use pango.Objs.Srvc.RoundTrip.{survivor, normalize-specify_srvc}

abbrev version : Number
version = record { major = pos 8; minor = pos 1; patch = pos 3; suffix = "" }

abbrev wildcard : Addr.Entry
wildcard = record {
  name = "branches";
  value = "10.0.0.7/0.255.255.0";
  type = Addr.ip_wildcard;
  description = "";
  tags = some ("site" ∷ []);
}

normalize-specify_addr_example :
    Addr.normalize (Addr.specify version wildcard)
    ≡ (if is_known version wildcard.type then wildcard else lost wildcard)
normalize-specify_addr_example = normalize-specify_addr wildcard version

-- An older version keeps neither the type nor the value of an IP wildcard.
wildcard-lost : Addr.normalize (Addr.specify version wildcard) ≡ lost wildcard
unfolding Addr.normalize Addr.specify gte
wildcard-lost = refl

abbrev web : Srvc.Entry
web = record Srvc.no_entry {
  name = "web";
  protocol = Srvc.protocol_tcp;
  destination_port = "8080";
  override_session_timeout = true;
  override_timeout = pos 60;
}

normalize-specify_srvc_example :
    Srvc.normalize (Srvc.specify version web) ≡ survivor web (gte version Srvc.since_v2)
normalize-specify_srvc_example = normalize-specify_srvc web version

abbrev newer : Number
newer = record { major = pos 9; minor = pos 1; patch = pos 0; suffix = "" }

abbrev host : Addr.Entry
host = record {
  name = "host";
  value = "10.1.1.1";
  type = Addr.ip_netmask;
  description = "";
  tags = none;
}

abbrev addresses_con : Con (State Addr.Object) Addr.Object Addr.Container
addresses_con = device Access.object_name Access.holds

abbrev addresses_fw : Operations (State Addr.Object) Addr.Entry
addresses_fw = Addr.fw newer addresses_con "vsys2"

abbrev nothing : State Addr.Object
nothing p n = none

get-set_addr_example :
    ((addresses_fw.set (host ∷ wildcard ∷ []) nothing).0 ≡ none)
    × All
        (λ e.
          addresses_fw.get e.name (addresses_fw.set (host ∷ wildcard ∷ []) nothing).1
          ≡ ((none, e), (addresses_fw.set (host ∷ wildcard ∷ []) nothing).1))
        (host ∷ wildcard ∷ [])
    × ((addresses_fw.get "dns" (addresses_fw.set (host ∷ wildcard ∷ []) nothing).1).0
        ≡ (addresses_fw.get "dns" nothing).0)
unfolding gte
get-set_addr_example =
    get-set_addr newer addresses_con (device-IsDevice Access.object_name Access.holds) "vsys2" host
      (wildcard ∷ []) "dns" nothing (refl, (refl, tt))
      ((omega arith, refl), ((omega arith, refl), tt)) (refl, (refl, tt))
      (held-device _ _ _ _ _, (held-device _ _ _ _ _, tt)) (omega arith, refl) refl
