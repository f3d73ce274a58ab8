-- ===== src/Poli/Security/Xml.antt =====
-- The XML structs of poli/security/entry.go, and both directions between them and the rule. A pointer
-- is an option.
use pango.Base.{
  String, List, Bool, false, not, ◌||◌, Option, none, some, is_nil, map, ◌==◌, if◌then◌else◌,
}
use pango.Util.Flag.{yes_no, as_bool}
use pango.Util.Member.{MemberType, mem_to_str, str_to_mem, mem_to_one_str, one_str_to_mem}
use pango.Util.Target.{Targets, VsysEntryType, vsys_ent_to_map, map_to_vsys_ent}
use pango.Poli.Security.{Entry}

pub record SecOptions : Type 0 where
  pub disable_server_response_inspection : String

pub record TargetInfo : Type 0 where
  pub targets : Option VsysEntryType
  pub negate_target : String

pub record ProfileSettingsProfile : Type 0 where
  pub virus : Option MemberType
  pub spyware : Option MemberType
  pub vulnerability : Option MemberType
  pub url_filtering : Option MemberType
  pub file_blocking : Option MemberType
  pub wildfire_analysis : Option MemberType
  pub data_filtering : Option MemberType

pub record ProfileSettings : Type 0 where
  pub group : Option MemberType
  pub profiles : Option ProfileSettingsProfile

-- `entry_v1`
pub record EntryV1 : Type 0 where
  pub name : String
  pub type : String
  pub description : String
  pub tags : Option MemberType
  pub source_zones : Option MemberType
  pub destination_zones : Option MemberType
  pub source_addresses : Option MemberType
  pub negate_source : String
  pub source_users : Option MemberType
  pub hip_profiles : Option MemberType
  pub destination_addresses : Option MemberType
  pub negate_destination : String
  pub applications : Option MemberType
  pub services : Option MemberType
  pub categories : Option MemberType
  pub action : String
  pub log_setting : String
  pub log_start : String
  pub log_end : String
  pub disabled : String
  pub schedule : String
  pub icmp_unreachable : String
  pub options : Option SecOptions
  pub target_info : Option TargetInfo
  pub profile_settings : Option ProfileSettings

-- The three parts of `normalize` that look into a pointer; nil leaves the zero value.
abbrev pub inspection : Option SecOptions → Bool
inspection none = false
inspection (some o) = as_bool o.disable_server_response_inspection

abbrev pub target_negated : Option TargetInfo → Bool
target_negated none = false
target_negated (some o) = as_bool o.negate_target

abbrev pub target_map : Option TargetInfo → Option Targets
target_map none = none
target_map (some o) = vsys_ent_to_map o.targets

abbrev pub group_name : Option ProfileSettings → String
group_name none = ""
group_name (some o) = mem_to_one_str o.group

abbrev profile_of :
    (ProfileSettingsProfile → Option MemberType) → Option ProfileSettingsProfile → String
profile_of field none = ""
profile_of field (some p) = mem_to_one_str (field p)

abbrev pub profile_name :
    (ProfileSettingsProfile → Option MemberType) → Option ProfileSettings → String
profile_name field none = ""
profile_name field (some o) = profile_of field o.profiles

unfoldable pub normalize : EntryV1 → Entry
normalize o = record {
  name = o.name;
  type = o.type;
  description = o.description;
  tags = mem_to_str o.tags;
  source_zones = mem_to_str o.source_zones;
  source_addresses = mem_to_str o.source_addresses;
  negate_source = as_bool o.negate_source;
  source_users = mem_to_str o.source_users;
  hip_profiles = mem_to_str o.hip_profiles;
  destination_zones = mem_to_str o.destination_zones;
  destination_addresses = mem_to_str o.destination_addresses;
  negate_destination = as_bool o.negate_destination;
  applications = mem_to_str o.applications;
  services = mem_to_str o.services;
  categories = mem_to_str o.categories;
  action = o.action;
  log_setting = o.log_setting;
  log_start = as_bool o.log_start;
  log_end = as_bool o.log_end;
  disabled = as_bool o.disabled;
  schedule = o.schedule;
  icmp_unreachable = as_bool o.icmp_unreachable;
  disable_server_response_inspection = inspection o.options;
  group = group_name o.profile_settings;
  targets = target_map o.target_info;
  negate_target = target_negated o.target_info;
  virus = profile_name (λ p. p.virus) o.profile_settings;
  spyware = profile_name (λ p. p.spyware) o.profile_settings;
  vulnerability = profile_name (λ p. p.vulnerability) o.profile_settings;
  url_filtering = profile_name (λ p. p.url_filtering) o.profile_settings;
  file_blocking = profile_name (λ p. p.file_blocking) o.profile_settings;
  wildfire_analysis = profile_name (λ p. p.wildfire_analysis) o.profile_settings;
  data_filtering = profile_name (λ p. p.data_filtering) o.profile_settings;
}

-- `gs`
abbrev pub any_profile : Entry → Bool
any_profile e =
    not (e.virus == "")
    || not (e.spyware == "")
    || not (e.vulnerability == "")
    || not (e.url_filtering == "")
    || not (e.file_blocking == "")
    || not (e.wildfire_analysis == "")
    || not (e.data_filtering == "")

abbrev pub target_info : Option Targets → Bool → Option TargetInfo
target_info targets negated =
    if not (is_nil targets) || negated
    then some (record { targets = map_to_vsys_ent targets; negate_target = yes_no negated })
    else none

abbrev pub profiles : Entry → ProfileSettingsProfile
profiles e = record {
  virus = one_str_to_mem e.virus;
  spyware = one_str_to_mem e.spyware;
  vulnerability = one_str_to_mem e.vulnerability;
  url_filtering = one_str_to_mem e.url_filtering;
  file_blocking = one_str_to_mem e.file_blocking;
  wildfire_analysis = one_str_to_mem e.wildfire_analysis;
  data_filtering = one_str_to_mem e.data_filtering;
}

abbrev pub settings_of : String → Bool → ProfileSettingsProfile → Option ProfileSettings
settings_of group gs found =
    if not (group == "") || gs
    then some (record { group = one_str_to_mem group; profiles = if gs then some found else none })
    else none

abbrev pub profile_settings : Entry → Option ProfileSettings
profile_settings e = settings_of e.group (any_profile e) (profiles e)

-- `specify_v1`
unfoldable pub specify : Entry → EntryV1
specify e = record {
  name = e.name;
  type = e.type;
  description = e.description;
  tags = str_to_mem e.tags;
  source_zones = str_to_mem e.source_zones;
  destination_zones = str_to_mem e.destination_zones;
  source_addresses = str_to_mem e.source_addresses;
  negate_source = yes_no e.negate_source;
  source_users = str_to_mem e.source_users;
  hip_profiles = str_to_mem e.hip_profiles;
  destination_addresses = str_to_mem e.destination_addresses;
  negate_destination = yes_no e.negate_destination;
  applications = str_to_mem e.applications;
  services = str_to_mem e.services;
  categories = str_to_mem e.categories;
  action = e.action;
  log_setting = e.log_setting;
  log_start = yes_no e.log_start;
  log_end = yes_no e.log_end;
  disabled = yes_no e.disabled;
  schedule = e.schedule;
  icmp_unreachable = yes_no e.icmp_unreachable;
  options =
      some (record {
        disable_server_response_inspection = yes_no e.disable_server_response_inspection;
      });
  target_info = target_info e.targets e.negate_target;
  profile_settings = profile_settings e;
}

-- `container_v1`
pub record ContainerV1 : Type 0 where
  pub answer : List EntryV1

unfoldable pub names : ContainerV1 → List String
names o = map (λ e. e.name) o.answer

unfoldable pub normalize_all : ContainerV1 → List Entry
unfolding normalize
normalize_all o = map normalize o.answer
