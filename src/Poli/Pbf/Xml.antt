-- ===== src/Poli/Pbf/Xml.antt =====
-- The XML structs of poli/pbf/entry.go for each version, and both directions between them and the rule. The
-- struct `targetInfo` is the one of poli/security.
use pango.Base.{String, List, [], Option, map, pos, if◌then◌else◌}
use pango.Util.Flag.{yes_no, as_bool}
use pango.Util.Member.{MemberType, mem_to_str, str_to_mem}
use pango.Version.{Number, gte}
use pango.Poli.Security.Xml.{TargetInfo, target_map, target_negated, target_info}
use pango.Poli.Rules.{Kind}
use pango.Poli.Pbf.{Entry, no_entry}
use pango.Poli.Pbf.Parts.{
  NextHopV1, NextHopV2, Act, Sym, From, Action, Return, read_from, write_zones, write_interfaces,
  read_hop_v1, read_hop_v2, write_hop_v1, write_hop_v2, read_action, write_action, read_return,
  write_return,
}

abbrev pub from_of : Entry → From
from_of e = record { type = e.from_type; values = e.from_values }

abbrev pub action_of : Entry → Action
action_of e = record {
  action = e.action;
  vsys = e.forward_vsys;
  egress_interface = e.forward_egress_interface;
  hop = record { type = e.forward_next_hop_type; value = e.forward_next_hop_value };
  monitor = record {
    profile = e.forward_monitor_profile;
    ip_address = e.forward_monitor_ip_address;
    disable_if_unreachable = e.forward_monitor_disable_if_unreachable;
  };
}

abbrev pub return_of : Entry → Return
return_of e = record {
  enabled = e.enable_enforce_symmetric_return;
  addresses = e.symmetric_return_addresses;
}

pub record EntryV1 : Type 0 where
  pub name : String
  pub from_zones : Option MemberType
  pub from_interfaces : Option MemberType
  pub source_addresses : Option MemberType
  pub source_users : Option MemberType
  pub negate_source : String
  pub destination_addresses : Option MemberType
  pub negate_destination : String
  pub applications : Option MemberType
  pub services : Option MemberType
  pub schedule : String
  pub tags : Option MemberType
  pub disabled : String
  pub description : String
  pub action : Act NextHopV1
  pub symmetric : Option Sym
  pub active_active_device_binding : String
  pub target_info : Option TargetInfo

-- `normalize` of `entry_v1`
unfoldable pub normalize_v1 : EntryV1 → Entry
unfolding mem_to_str as_bool read_from read_action read_return
normalize_v1 o = record {
  name = o.name;
  description = o.description;
  tags = mem_to_str o.tags;
  from_type = (read_from o.from_zones o.from_interfaces).type;
  from_values = (read_from o.from_zones o.from_interfaces).values;
  source_addresses = mem_to_str o.source_addresses;
  source_users = mem_to_str o.source_users;
  negate_source = as_bool o.negate_source;
  destination_addresses = mem_to_str o.destination_addresses;
  negate_destination = as_bool o.negate_destination;
  applications = mem_to_str o.applications;
  services = mem_to_str o.services;
  schedule = o.schedule;
  disabled = as_bool o.disabled;
  action = (read_action read_hop_v1 o.action).action;
  forward_vsys = (read_action read_hop_v1 o.action).vsys;
  forward_egress_interface = (read_action read_hop_v1 o.action).egress_interface;
  forward_next_hop_type = (read_action read_hop_v1 o.action).hop.type;
  forward_next_hop_value = (read_action read_hop_v1 o.action).hop.value;
  forward_monitor_profile = (read_action read_hop_v1 o.action).monitor.profile;
  forward_monitor_ip_address = (read_action read_hop_v1 o.action).monitor.ip_address;
  forward_monitor_disable_if_unreachable =
      (read_action read_hop_v1 o.action).monitor.disable_if_unreachable;
  enable_enforce_symmetric_return = (read_return o.symmetric).enabled;
  symmetric_return_addresses = (read_return o.symmetric).addresses;
  active_active_device_binding = o.active_active_device_binding;
  targets = target_map o.target_info;
  negate_target = target_negated o.target_info;
  uuid = "";
}

unfoldable pub specify_v1 : Entry → EntryV1
unfolding str_to_mem yes_no write_zones write_interfaces write_action write_return
specify_v1 e = record {
  name = e.name;
  from_zones = write_zones (from_of e);
  from_interfaces = write_interfaces (from_of e);
  source_addresses = str_to_mem e.source_addresses;
  source_users = str_to_mem e.source_users;
  negate_source = yes_no e.negate_source;
  destination_addresses = str_to_mem e.destination_addresses;
  negate_destination = yes_no e.negate_destination;
  applications = str_to_mem e.applications;
  services = str_to_mem e.services;
  schedule = e.schedule;
  tags = str_to_mem e.tags;
  disabled = yes_no e.disabled;
  description = e.description;
  action = write_action write_hop_v1 (action_of e);
  symmetric = write_return (return_of e);
  active_active_device_binding = e.active_active_device_binding;
  target_info = target_info e.targets e.negate_target;
}

pub record EntryV2 : Type 0 where
  pub name : String
  pub uuid : String
  pub from_zones : Option MemberType
  pub from_interfaces : Option MemberType
  pub source_addresses : Option MemberType
  pub source_users : Option MemberType
  pub negate_source : String
  pub destination_addresses : Option MemberType
  pub negate_destination : String
  pub applications : Option MemberType
  pub services : Option MemberType
  pub schedule : String
  pub tags : Option MemberType
  pub disabled : String
  pub description : String
  pub action : Act NextHopV2
  pub symmetric : Option Sym
  pub active_active_device_binding : String
  pub target_info : Option TargetInfo

-- `normalize` of `entry_v2`
unfoldable pub normalize_v2 : EntryV2 → Entry
unfolding mem_to_str as_bool read_from read_action read_return
normalize_v2 o = record {
  name = o.name;
  description = o.description;
  tags = mem_to_str o.tags;
  from_type = (read_from o.from_zones o.from_interfaces).type;
  from_values = (read_from o.from_zones o.from_interfaces).values;
  source_addresses = mem_to_str o.source_addresses;
  source_users = mem_to_str o.source_users;
  negate_source = as_bool o.negate_source;
  destination_addresses = mem_to_str o.destination_addresses;
  negate_destination = as_bool o.negate_destination;
  applications = mem_to_str o.applications;
  services = mem_to_str o.services;
  schedule = o.schedule;
  disabled = as_bool o.disabled;
  action = (read_action read_hop_v2 o.action).action;
  forward_vsys = (read_action read_hop_v2 o.action).vsys;
  forward_egress_interface = (read_action read_hop_v2 o.action).egress_interface;
  forward_next_hop_type = (read_action read_hop_v2 o.action).hop.type;
  forward_next_hop_value = (read_action read_hop_v2 o.action).hop.value;
  forward_monitor_profile = (read_action read_hop_v2 o.action).monitor.profile;
  forward_monitor_ip_address = (read_action read_hop_v2 o.action).monitor.ip_address;
  forward_monitor_disable_if_unreachable =
      (read_action read_hop_v2 o.action).monitor.disable_if_unreachable;
  enable_enforce_symmetric_return = (read_return o.symmetric).enabled;
  symmetric_return_addresses = (read_return o.symmetric).addresses;
  active_active_device_binding = o.active_active_device_binding;
  targets = target_map o.target_info;
  negate_target = target_negated o.target_info;
  uuid = o.uuid;
}

unfoldable pub specify_v2 : Entry → EntryV2
unfolding str_to_mem yes_no write_zones write_interfaces write_action write_return
specify_v2 e = record {
  name = e.name;
  uuid = e.uuid;
  from_zones = write_zones (from_of e);
  from_interfaces = write_interfaces (from_of e);
  source_addresses = str_to_mem e.source_addresses;
  source_users = str_to_mem e.source_users;
  negate_source = yes_no e.negate_source;
  destination_addresses = str_to_mem e.destination_addresses;
  negate_destination = yes_no e.negate_destination;
  applications = str_to_mem e.applications;
  services = str_to_mem e.services;
  schedule = e.schedule;
  tags = str_to_mem e.tags;
  disabled = yes_no e.disabled;
  description = e.description;
  action = write_action write_hop_v2 (action_of e);
  symmetric = write_return (return_of e);
  active_active_device_binding = e.active_active_device_binding;
  target_info = target_info e.targets e.negate_target;
}

-- What a rule is specified as, and what a response is unmarshalled into, in the one version or the
-- other.
pub data Object : Type 0 where
  v1 : EntryV1 → Object
  v2 : EntryV2 → Object

pub data Container : Type 0 where
  container_v1 : List EntryV1 → Container
  container_v2 : List EntryV2 → Container

-- `version.Number{9, 0, 0, ""}`
abbrev pub fqdn_since : Number
fqdn_since = record { major = pos 9; minor = pos 0; patch = pos 0; suffix = "" }

unfoldable pub specify : Number → Entry → Object
unfolding specify_v1 specify_v2 gte
specify version e = if gte version fqdn_since then v2 (specify_v2 e) else v1 (specify_v1 e)

unfoldable pub normalize : Object → Entry
unfolding normalize_v1 normalize_v2
normalize (v1 o) = normalize_v1 o
normalize (v2 o) = normalize_v2 o

unfoldable pub names : Container → List String
names (container_v1 answer) = map (λ o. o.name) answer
names (container_v2 answer) = map (λ o. o.name) answer

unfoldable pub normalize_all : Container → List Entry
unfolding normalize_v1 normalize_v2
normalize_all (container_v1 answer) = map normalize_v1 answer
normalize_all (container_v2 answer) = map normalize_v2 answer

-- `versioning`, by the version of PAN-OS that the client says.
unfoldable pub versioning : Number → Kind Entry Object Container
unfolding gte
versioning version = record {
  name_of = λ e. e.name;
  specify = specify version;
  names = names;
  normalize_all = normalize_all;
  no_entry = no_entry;
  unknown = "Unknown type sent to delete: %s";
  no_answer = if gte version fqdn_since then container_v2 [] else container_v1 [];
}
