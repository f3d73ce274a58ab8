-- ===== src/Poli/Security/RoundTrip.antt =====
-- A security rule survives its XML struct, and what `Defaults` and `Copy` do to a rule.
use pango.Base.{
  String, Bool, true, false, Option, none, some, ◌==◌, eq_iff, ◌≡◌, refl, sym, ◌∙◌, ap, arith,
  Bool-cases, inl, inr,
}
use pango.Util.Flag.{as_bool-yes_no}
use pango.Util.Member.{
  MemberType, mem_to_str-str_to_mem, mem_to_one_str, one_str_to_mem, mem_to_one_str-one_str_to_mem,
}
use pango.Util.Target.{Targets, MapIsDistinct, nil_if_empty, vsys_ent_to_map-map_to_vsys_ent}
use pango.Poli.Security.{Entry, copy}
use pango.Poli.Security.Xml.{
  ProfileSettingsProfile, normalize, specify, target_negated, target_map, group_name, profile_name,
  any_profile, target_info, profiles, profile_settings, settings_of,
}

pub target_negated-target_info :
    (targets : Option Targets) (negated : Bool)
    → target_negated (target_info targets negated) ≡ negated
target_negated-target_info none false = refl
target_negated-target_info none true = as_bool-yes_no true
target_negated-target_info (some m) negated = as_bool-yes_no negated

pub target_map-target_info :
    (targets : Option Targets) (negated : Bool)
    → MapIsDistinct targets
    → target_map (target_info targets negated) ≡ nil_if_empty targets
target_map-target_info none false d = refl
target_map-target_info none true d = vsys_ent_to_map-map_to_vsys_ent none tt
target_map-target_info (some m) negated d = vsys_ent_to_map-map_to_vsys_ent (some m) d

group_name-settings_of :
    (group : String) (gs : Bool) (found : ProfileSettingsProfile)
    → group_name (settings_of group gs found) ≡ group
group_name-settings_of group true found =
    ground (arith, mem_to_one_str-one_str_to_mem group, eq_iff group "")
group_name-settings_of group false found =
    ground (arith, mem_to_one_str-one_str_to_mem group, eq_iff group "")

-- A profile that is set when no other one may be.
profile_name-settings_of :
    (group : String) (gs : Bool) (found : ProfileSettingsProfile)
    (field : ProfileSettingsProfile → Option MemberType) (value : String)
    → field found ≡ one_str_to_mem value
    → (gs ≡ false → value ≡ "")
    → profile_name field (settings_of group gs found) ≡ value
profile_name-settings_of group true found field value stored unset =
    elim (Bool-cases (group == "")) [
      | inl e ↦ rw e (ap mem_to_one_str stored ∙ mem_to_one_str-one_str_to_mem value)
      | inr e ↦ rw e (ap mem_to_one_str stored ∙ mem_to_one_str-one_str_to_mem value)
    ]
profile_name-settings_of group false found field value stored unset =
    elim (Bool-cases (group == "")) [
      | inl e ↦ rw e (sym (unset refl))
      | inr e ↦ rw e (sym (unset refl))
    ]

virus_lem : (e : Entry) → profile_name (λ p. p.virus) (profile_settings e) ≡ e.virus
virus_lem e =
    profile_name-settings_of e.group (any_profile e) (profiles e) (λ p. p.virus) e.virus refl
      (λ h. ground (arith, eq_iff e.virus ""))

spyware_lem : (e : Entry) → profile_name (λ p. p.spyware) (profile_settings e) ≡ e.spyware
spyware_lem e =
    profile_name-settings_of e.group (any_profile e) (profiles e) (λ p. p.spyware) e.spyware refl
      (λ h. ground (arith, eq_iff e.spyware ""))

vulnerability_lem :
    (e : Entry) → profile_name (λ p. p.vulnerability) (profile_settings e) ≡ e.vulnerability
vulnerability_lem e =
    profile_name-settings_of e.group (any_profile e) (profiles e) (λ p. p.vulnerability)
      e.vulnerability refl (λ h. ground (arith, eq_iff e.vulnerability ""))

url_filtering_lem :
    (e : Entry) → profile_name (λ p. p.url_filtering) (profile_settings e) ≡ e.url_filtering
url_filtering_lem e =
    profile_name-settings_of e.group (any_profile e) (profiles e) (λ p. p.url_filtering)
      e.url_filtering refl (λ h. ground (arith, eq_iff e.url_filtering ""))

file_blocking_lem :
    (e : Entry) → profile_name (λ p. p.file_blocking) (profile_settings e) ≡ e.file_blocking
file_blocking_lem e =
    profile_name-settings_of e.group (any_profile e) (profiles e) (λ p. p.file_blocking)
      e.file_blocking refl (λ h. ground (arith, eq_iff e.file_blocking ""))

wildfire_analysis_lem :
    (e : Entry) → profile_name (λ p. p.wildfire_analysis) (profile_settings e) ≡ e.wildfire_analysis
wildfire_analysis_lem e =
    profile_name-settings_of e.group (any_profile e) (profiles e) (λ p. p.wildfire_analysis)
      e.wildfire_analysis refl (λ h. ground (arith, eq_iff e.wildfire_analysis ""))

data_filtering_lem :
    (e : Entry) → profile_name (λ p. p.data_filtering) (profile_settings e) ≡ e.data_filtering
data_filtering_lem e =
    profile_name-settings_of e.group (any_profile e) (profiles e) (λ p. p.data_filtering)
      e.data_filtering refl (λ h. ground (arith, eq_iff e.data_filtering ""))

-- A security rule is read back from its XML struct as it was, if the map of its targets holds no key
-- twice and is not an empty map, which would come back as nil.
pub normalize-specify :
    (e : Entry)
    → MapIsDistinct e.targets
    → nil_if_empty e.targets ≡ e.targets
    → normalize (specify e) ≡ e
unfolding normalize specify
normalize-specify e distinct kept = λ i. record {
  name = e.name;
  type = e.type;
  description = e.description;
  tags = mem_to_str-str_to_mem e.tags i;
  source_zones = mem_to_str-str_to_mem e.source_zones i;
  source_addresses = mem_to_str-str_to_mem e.source_addresses i;
  negate_source = as_bool-yes_no e.negate_source i;
  source_users = mem_to_str-str_to_mem e.source_users i;
  hip_profiles = mem_to_str-str_to_mem e.hip_profiles i;
  destination_zones = mem_to_str-str_to_mem e.destination_zones i;
  destination_addresses = mem_to_str-str_to_mem e.destination_addresses i;
  negate_destination = as_bool-yes_no e.negate_destination i;
  applications = mem_to_str-str_to_mem e.applications i;
  services = mem_to_str-str_to_mem e.services i;
  categories = mem_to_str-str_to_mem e.categories i;
  action = e.action;
  log_setting = e.log_setting;
  log_start = as_bool-yes_no e.log_start i;
  log_end = as_bool-yes_no e.log_end i;
  disabled = as_bool-yes_no e.disabled i;
  schedule = e.schedule;
  icmp_unreachable = as_bool-yes_no e.icmp_unreachable i;
  disable_server_response_inspection = as_bool-yes_no e.disable_server_response_inspection i;
  group = group_name-settings_of e.group (any_profile e) (profiles e) i;
  targets = (target_map-target_info e.targets e.negate_target distinct ∙ kept) i;
  negate_target = target_negated-target_info e.targets e.negate_target i;
  virus = virus_lem e i;
  spyware = spyware_lem e i;
  vulnerability = vulnerability_lem e i;
  url_filtering = url_filtering_lem e i;
  file_blocking = file_blocking_lem e i;
  wildfire_analysis = wildfire_analysis_lem e i;
  data_filtering = data_filtering_lem e i;
}

-- Copying a rule to one of the same name gives that rule: no other part is forgotten.
pub copy_same_name : (o s : Entry) → o.name ≡ s.name → copy o s ≡ s
unfolding copy
copy_same_name o s same = λ i. record {
  name = same i;
  type = s.type;
  description = s.description;
  tags = s.tags;
  source_zones = s.source_zones;
  source_addresses = s.source_addresses;
  negate_source = s.negate_source;
  source_users = s.source_users;
  hip_profiles = s.hip_profiles;
  destination_zones = s.destination_zones;
  destination_addresses = s.destination_addresses;
  negate_destination = s.negate_destination;
  applications = s.applications;
  services = s.services;
  categories = s.categories;
  action = s.action;
  log_setting = s.log_setting;
  log_start = s.log_start;
  log_end = s.log_end;
  disabled = s.disabled;
  schedule = s.schedule;
  icmp_unreachable = s.icmp_unreachable;
  disable_server_response_inspection = s.disable_server_response_inspection;
  group = s.group;
  targets = s.targets;
  negate_target = s.negate_target;
  virus = s.virus;
  spyware = s.spyware;
  vulnerability = s.vulnerability;
  url_filtering = s.url_filtering;
  file_blocking = s.file_blocking;
  wildfire_analysis = s.wildfire_analysis;
  data_filtering = s.data_filtering;
}
