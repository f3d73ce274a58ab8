-- ===== src/Poli/Pbf.antt =====
-- poli/pbf/entry.go and poli/pbf/const.go: the rule of policy-based forwarding, apart from any version of
-- PAN-OS. A slice and a map are options, whose `none` is nil.
pub mod Parts
pub mod Xml
pub mod Fw
pub mod Pano
pub mod Forwarding
pub mod RoundTrip
mod Tests
use pango.Base.{String, List, Bool, true, false, Option, none, some}
use pango.Util.Target.{Targets}

abbrev pub from_type_zone : String
from_type_zone = "zone"

abbrev pub from_type_interface : String
from_type_interface = "interface"

abbrev pub next_hop_ip_address : String
next_hop_ip_address = "ip-address"

abbrev pub next_hop_fqdn : String
next_hop_fqdn = "fqdn"

abbrev pub action_forward : String
action_forward = "forward"

abbrev pub action_vsys_forward : String
action_vsys_forward = "forward-to-vsys"

abbrev pub action_discard : String
action_discard = "discard"

abbrev pub action_no_pbf : String
action_no_pbf = "no-pbf"

pub record Entry : Type 0 where
  pub name : String
  pub description : String
  pub tags : Option (List String)
  pub from_type : String
  pub from_values : Option (List String)
  pub source_addresses : Option (List String)
  pub source_users : Option (List String)
  pub negate_source : Bool
  pub destination_addresses : Option (List String)
  pub negate_destination : Bool
  pub applications : Option (List String)
  pub services : Option (List String)
  pub schedule : String
  pub disabled : Bool
  pub action : String
  pub forward_vsys : String
  pub forward_egress_interface : String
  pub forward_next_hop_type : String
  pub forward_next_hop_value : String
  pub forward_monitor_profile : String
  pub forward_monitor_ip_address : String
  pub forward_monitor_disable_if_unreachable : Bool
  pub enable_enforce_symmetric_return : Bool
  pub symmetric_return_addresses : Option (List String)
  pub active_active_device_binding : String
  pub targets : Option Targets
  pub negate_target : Bool
  pub uuid : String

-- `Entry{}`
abbrev pub no_entry : Entry
no_entry = record {
  name = "";
  description = "";
  tags = none;
  from_type = "";
  from_values = none;
  source_addresses = none;
  source_users = none;
  negate_source = false;
  destination_addresses = none;
  negate_destination = false;
  applications = none;
  services = none;
  schedule = "";
  disabled = false;
  action = "";
  forward_vsys = "";
  forward_egress_interface = "";
  forward_next_hop_type = "";
  forward_next_hop_value = "";
  forward_monitor_profile = "";
  forward_monitor_ip_address = "";
  forward_monitor_disable_if_unreachable = false;
  enable_enforce_symmetric_return = false;
  symmetric_return_addresses = none;
  active_active_device_binding = "";
  targets = none;
  negate_target = false;
  uuid = "";
}

-- `Copy`, of `s` to `o`; the name is kept.
unfoldable pub copy : Entry → Entry → Entry
copy o s = record {
  name = o.name;
  description = s.description;
  tags = s.tags;
  from_type = s.from_type;
  from_values = s.from_values;
  source_addresses = s.source_addresses;
  source_users = s.source_users;
  negate_source = s.negate_source;
  destination_addresses = s.destination_addresses;
  negate_destination = s.negate_destination;
  applications = s.applications;
  services = s.services;
  schedule = s.schedule;
  disabled = s.disabled;
  action = s.action;
  forward_vsys = s.forward_vsys;
  forward_egress_interface = s.forward_egress_interface;
  forward_next_hop_type = s.forward_next_hop_type;
  forward_next_hop_value = s.forward_next_hop_value;
  forward_monitor_profile = s.forward_monitor_profile;
  forward_monitor_ip_address = s.forward_monitor_ip_address;
  forward_monitor_disable_if_unreachable = s.forward_monitor_disable_if_unreachable;
  enable_enforce_symmetric_return = s.enable_enforce_symmetric_return;
  symmetric_return_addresses = s.symmetric_return_addresses;
  active_active_device_binding = s.active_active_device_binding;
  targets = s.targets;
  negate_target = s.negate_target;
  uuid = s.uuid;
}
