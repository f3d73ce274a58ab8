-- ===== src/Poli/Pbf/Parts.antt =====
-- The parts of the XML structs of poli/pbf/entry.go that are nested, and both directions between them
-- and the parameters of a rule: where its traffic comes from, its action, and the symmetric return.
-- The structs of both versions differ in the next hop, which is a parameter of the others here.
use pango.Base.{
  String, List, Bool, false, not, ◌||◌, Option, none, some, items, is_empty, ◌==◌, if◌then◌else◌,
}
use pango.Util.Flag.{yes_no, as_bool}
use pango.Util.Member.{MemberType, mem_to_str, str_to_mem, EntryType, ent_to_str, str_to_ent}
use pango.Poli.Pbf.{
  from_type_zone, from_type_interface, next_hop_ip_address, next_hop_fqdn, action_forward,
  action_vsys_forward, action_discard, action_no_pbf,
}

pub record NextHopV1 : Type 0 where
  pub ip_address : String

pub record NextHopV2 : Type 0 where
  pub ip_address : String
  pub fqdn : String

pub record FwdMonitor : Type 0 where
  pub profile : String
  pub ip_address : String
  pub disable_if_unreachable : String

pub record Fwd (NextHop : Type 0) : Type 0 where
  pub egress_interface : String
  pub next_hop : Option NextHop
  pub monitor : Option FwdMonitor

pub record Act (NextHop : Type 0) : Type 0 where
  pub forward : Option (Fwd NextHop)
  pub forward_vsys : Option String
  pub discard : Option String
  pub no_pbf : Option String

pub record Sym : Type 0 where
  pub enabled : String
  pub addresses : Option EntryType

-- `FromType` and `FromValues` of an `Entry`.
pub record From : Type 0 where
  pub type : String
  pub values : Option (List String)

-- `ForwardNextHopType` and `ForwardNextHopValue`.
pub record Hop : Type 0 where
  pub type : String
  pub value : String

-- The parameters with the prefix ForwardMonitor.
pub record Monitor : Type 0 where
  pub profile : String
  pub ip_address : String
  pub disable_if_unreachable : Bool

-- `Action`, and the parameters with the prefix Forward.
pub record Action : Type 0 where
  pub action : String
  pub vsys : String
  pub egress_interface : String
  pub hop : Hop
  pub monitor : Monitor

-- `EnableEnforceSymmetricReturn` and `SymmetricReturnAddresses`.
pub record Return : Type 0 where
  pub enabled : Bool
  pub addresses : Option (List String)

abbrev pub no_from : From
no_from = record { type = ""; values = none }

abbrev pub no_hop : Hop
no_hop = record { type = ""; value = "" }

abbrev pub no_monitor : Monitor
no_monitor = record { profile = ""; ip_address = ""; disable_if_unreachable = false }

abbrev pub no_action : Action
no_action = record {
  action = "";
  vsys = "";
  egress_interface = "";
  hop = no_hop;
  monitor = no_monitor;
}

unfoldable pub read_from : Option MemberType → Option MemberType → From
unfolding mem_to_str
read_from (some zones) interfaces = record {
  type = from_type_zone;
  values = mem_to_str (some zones);
}
read_from none (some interfaces) = record {
  type = from_type_interface;
  values = mem_to_str (some interfaces);
}
read_from none none = no_from

unfoldable pub write_zones : From → Option MemberType
unfolding str_to_mem
write_zones e = if e.type == from_type_zone then str_to_mem e.values else none

unfoldable pub write_interfaces : From → Option MemberType
unfolding str_to_mem
write_interfaces e =
    if e.type == from_type_zone
    then none
    else if e.type == from_type_interface
    then str_to_mem e.values
    else none

unfoldable pub read_hop_v1 : Option NextHopV1 → Hop
read_hop_v1 none = no_hop
read_hop_v1 (some h) =
    if not (h.ip_address == "")
    then record { type = next_hop_ip_address; value = h.ip_address }
    else no_hop

unfoldable pub read_hop_v2 : Option NextHopV2 → Hop
read_hop_v2 none = no_hop
read_hop_v2 (some h) =
    if not (h.ip_address == "")
    then record { type = next_hop_ip_address; value = h.ip_address }
    else if not (h.fqdn == "")
    then record { type = next_hop_fqdn; value = h.fqdn }
    else no_hop

unfoldable pub write_hop_v1 : Hop → Option NextHopV1
write_hop_v1 e =
    if e.type == next_hop_ip_address then some (record { ip_address = e.value }) else none

unfoldable pub write_hop_v2 : Hop → Option NextHopV2
write_hop_v2 e =
    if e.type == next_hop_ip_address
    then some (record { ip_address = e.value; fqdn = "" })
    else if e.type == next_hop_fqdn
    then some (record { ip_address = ""; fqdn = e.value })
    else none

unfoldable pub read_monitor : Option FwdMonitor → Monitor
unfolding as_bool
read_monitor none = no_monitor
read_monitor (some m) = record {
  profile = m.profile;
  ip_address = m.ip_address;
  disable_if_unreachable = as_bool m.disable_if_unreachable;
}

unfoldable pub write_monitor : Monitor → Option FwdMonitor
unfolding yes_no
write_monitor e =
    if not (e.profile == "") || not (e.ip_address == "") || e.disable_if_unreachable
    then some (record {
      profile = e.profile;
      ip_address = e.ip_address;
      disable_if_unreachable = yes_no e.disable_if_unreachable;
    })
    else none

module _ {NextHop : Type 0} (read_hop : Option NextHop → Hop) where
  abbrev read_other : Option String → Option String → Option String → Action
  read_other (some vsys) discard no_pbf = record no_action {
    action = action_vsys_forward;
    vsys = vsys;
  }
  read_other none (some s) no_pbf = record no_action { action = action_discard }
  read_other none none (some s) = record no_action { action = action_no_pbf }
  read_other none none none = no_action

  -- The switch on the action of `normalize`.
  unfoldable pub read_forward :
      Option (Fwd NextHop) → Option String → Option String → Option String → Action
  unfolding read_monitor
  read_forward (some f) vsys discard no_pbf = record {
    action = action_forward;
    vsys = "";
    egress_interface = f.egress_interface;
    hop = read_hop f.next_hop;
    monitor = read_monitor f.monitor;
  }
  read_forward none vsys discard no_pbf = read_other vsys discard no_pbf

  unfoldable pub read_action : Act NextHop → Action
  unfolding read_forward
  read_action a = read_forward a.forward a.forward_vsys a.discard a.no_pbf

module _ {NextHop : Type 0} (write_hop : Hop → Option NextHop) where
  unfoldable pub forward_of : Action → Fwd NextHop
  unfolding write_monitor
  forward_of e = record {
    egress_interface = e.egress_interface;
    next_hop = write_hop e.hop;
    monitor = write_monitor e.monitor;
  }

  -- The switch on the action of the functions that specify.
  unfoldable pub write_action : Action → Act NextHop
  unfolding forward_of
  write_action e =
      if e.action == action_forward
      then record {
        forward = some (forward_of e);
        forward_vsys = none;
        discard = none;
        no_pbf = none;
      }
      else if e.action == action_vsys_forward
      then record { forward = none; forward_vsys = some e.vsys; discard = none; no_pbf = none }
      else if e.action == action_discard
      then record { forward = none; forward_vsys = none; discard = some ""; no_pbf = none }
      else if e.action == action_no_pbf
      then record { forward = none; forward_vsys = none; discard = none; no_pbf = some "" }
      else record { forward = none; forward_vsys = none; discard = none; no_pbf = none }

unfoldable pub read_return : Option Sym → Return
unfolding as_bool ent_to_str
read_return none = record { enabled = false; addresses = none }
read_return (some s) = record { enabled = as_bool s.enabled; addresses = ent_to_str s.addresses }

unfoldable pub write_return : Return → Option Sym
unfolding yes_no str_to_ent
write_return e =
    if e.enabled || not (is_empty (items e.addresses))
    then some (record { enabled = yes_no e.enabled; addresses = str_to_ent e.addresses })
    else none
