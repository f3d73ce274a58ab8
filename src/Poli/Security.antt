-- ===== src/Poli/Security.antt =====
-- poli/security/entry.go: the security rule, apart from any version of PAN-OS. A slice and a map are
-- options, whose `none` is nil.
pub mod Xml
pub mod Rules
pub mod Fw
pub mod Pano
pub mod RoundTrip
mod Tests
use pango.Base.{
  String, List, [], ◌∷◌, Bool, true, false, not, Option, none, some, items, is_empty, ◌==◌,
  if◌then◌else◌, ◌≡◌, refl, ap,
}
use pango.Util.Target.{Targets}

pub record Entry : Type 0 where
  pub name : String
  pub type : String
  pub description : String
  pub tags : Option (List String)
  pub source_zones : Option (List String)
  pub source_addresses : Option (List String)
  pub negate_source : Bool
  pub source_users : Option (List String)
  pub hip_profiles : Option (List String)
  pub destination_zones : Option (List String)
  pub destination_addresses : Option (List String)
  pub negate_destination : Bool
  pub applications : Option (List String)
  pub services : Option (List String)
  pub categories : Option (List String)
  pub action : String
  pub log_setting : String
  pub log_start : Bool
  pub log_end : Bool
  pub disabled : Bool
  pub schedule : String
  pub icmp_unreachable : Bool
  pub disable_server_response_inspection : Bool
  pub group : String
  pub targets : Option Targets
  pub negate_target : Bool
  pub virus : String
  pub spyware : String
  pub vulnerability : String
  pub url_filtering : String
  pub file_blocking : String
  pub wildfire_analysis : String
  pub data_filtering : String

abbrev or_default : String → Option (List String) → Option (List String)
or_default text xs = if is_empty (items xs) then some (text ∷ []) else xs

-- `Defaults`
unfoldable pub defaults : Entry → Entry
defaults o = record {
  name = o.name;
  type = if o.type == "" then "universal" else o.type;
  description = o.description;
  tags = o.tags;
  source_zones = or_default "any" o.source_zones;
  source_addresses = or_default "any" o.source_addresses;
  negate_source = o.negate_source;
  source_users = or_default "any" o.source_users;
  hip_profiles = or_default "any" o.hip_profiles;
  destination_zones = or_default "any" o.destination_zones;
  destination_addresses = or_default "any" o.destination_addresses;
  negate_destination = o.negate_destination;
  applications = or_default "any" o.applications;
  services = or_default "application-default" o.services;
  categories = or_default "any" o.categories;
  action = if o.action == "" then "allow" else o.action;
  log_setting = o.log_setting;
  log_start = o.log_start;
  log_end = if not o.log_end then true else o.log_end;
  disabled = o.disabled;
  schedule = o.schedule;
  icmp_unreachable = o.icmp_unreachable;
  disable_server_response_inspection = o.disable_server_response_inspection;
  group = o.group;
  targets = o.targets;
  negate_target = o.negate_target;
  virus = o.virus;
  spyware = o.spyware;
  vulnerability = o.vulnerability;
  url_filtering = o.url_filtering;
  file_blocking = o.file_blocking;
  wildfire_analysis = o.wildfire_analysis;
  data_filtering = o.data_filtering;
}

-- `Copy`, of `s` to `o`; the name is kept.
unfoldable pub copy : Entry → Entry → Entry
copy o s = record {
  name = o.name;
  type = s.type;
  description = s.description;
  tags = s.tags;
  source_zones = s.source_zones;
  source_addresses = s.source_addresses;
  negate_source = s.negate_source;
  source_users = s.source_users;
  hip_profiles = s.hip_profiles;
  destination_zones = s.destination_zones;
  destination_addresses = s.destination_addresses;
  negate_destination = s.negate_destination;
  applications = s.applications;
  services = s.services;
  categories = s.categories;
  action = s.action;
  log_setting = s.log_setting;
  log_start = s.log_start;
  log_end = s.log_end;
  disabled = s.disabled;
  schedule = s.schedule;
  icmp_unreachable = s.icmp_unreachable;
  disable_server_response_inspection = s.disable_server_response_inspection;
  group = s.group;
  targets = s.targets;
  negate_target = s.negate_target;
  virus = s.virus;
  spyware = s.spyware;
  vulnerability = s.vulnerability;
  url_filtering = s.url_filtering;
  file_blocking = s.file_blocking;
  wildfire_analysis = s.wildfire_analysis;
  data_filtering = s.data_filtering;
}
