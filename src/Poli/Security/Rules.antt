-- ===== src/Poli/Security/Rules.antt =====
-- poli/security/fw.go, over the xpath that the firewall's rules have for their names. The functions of
-- poli/security/pano.go are the same, over the xpath of a device group and a rulebase.
use pango.Base.{
  ℕ, String, List, [], ◌∷◌, map, false, Option, none, some, Error, is_empty, items, if◌then◌else◌,
  ◌>>=◌,
}
use pango.Namespace.Client.{Namespace}
use pango.Poli.Run.{Run, returned, and_then}
use pango.Poli.Rules as Rules
use pango.Poli.Rules.{Kind, by_name}
use pango.Poli.Security.{Entry}
use pango.Poli.Security.Xml.{EntryV1, ContainerV1, specify, names, normalize_all}

-- `Entry{}`
abbrev pub no_entry : Entry
no_entry = record {
  name = "";
  type = "";
  description = "";
  tags = none;
  source_zones = none;
  source_addresses = none;
  negate_source = false;
  source_users = none;
  hip_profiles = none;
  destination_zones = none;
  destination_addresses = none;
  negate_destination = false;
  applications = none;
  services = none;
  categories = none;
  action = "";
  log_setting = "";
  log_start = false;
  log_end = false;
  disabled = false;
  schedule = "";
  icmp_unreachable = false;
  disable_server_response_inspection = false;
  group = "";
  targets = none;
  negate_target = false;
  virus = "";
  spyware = "";
  vulnerability = "";
  url_filtering = "";
  file_blocking = "";
  wildfire_analysis = "";
  data_filtering = "";
}

abbrev pub no_answer : ContainerV1
no_answer = record { answer = [] }

-- `versioning`: all versions of PAN-OS have one struct.
abbrev pub kind : Kind Entry EntryV1 ContainerV1
kind = record {
  name_of = λ e. e.name;
  specify = specify;
  names = names;
  normalize_all = normalize_all;
  no_entry = no_entry;
  unknown = "Unsupported type to delete: %s";
  no_answer = no_answer;
}

abbrev pub entry_names : List Entry → List String
entry_names es = map (λ e. e.name) es

-- The rules of which `LogEnd` is set, and all the rules with it off.
abbrev pub logged : List Entry → List Entry
logged [] = []
logged (e ∷ es) = if e.log_end then e ∷ logged es else logged es

-- `e[i].LogEnd = false`
abbrev pub without_log_end : Entry → Entry
without_log_end o = record {
  name = o.name;
  type = o.type;
  description = o.description;
  tags = o.tags;
  source_zones = o.source_zones;
  source_addresses = o.source_addresses;
  negate_source = o.negate_source;
  source_users = o.source_users;
  hip_profiles = o.hip_profiles;
  destination_zones = o.destination_zones;
  destination_addresses = o.destination_addresses;
  negate_destination = o.negate_destination;
  applications = o.applications;
  services = o.services;
  categories = o.categories;
  action = o.action;
  log_setting = o.log_setting;
  log_start = o.log_start;
  log_end = false;
  disabled = o.disabled;
  schedule = o.schedule;
  icmp_unreachable = o.icmp_unreachable;
  disable_server_response_inspection = o.disable_server_response_inspection;
  group = o.group;
  targets = o.targets;
  negate_target = o.negate_target;
  virus = o.virus;
  spyware = o.spyware;
  vulnerability = o.vulnerability;
  url_filtering = o.url_filtering;
  file_blocking = o.file_blocking;
  wildfire_analysis = o.wildfire_analysis;
  data_filtering = o.data_filtering;
}

module _ {S : Type 0} (n : Namespace S EntryV1)
    (unmarshal : String → ContainerV1 → Option Error × ContainerV1)
    (xpath : List String → List String) where
  -- `VerifiableSet`
  unfoldable pub verifiable_set :
      (List Entry → List String) → ℕ → List Entry → S → Run Entry S (Option Error × S)
  unfolding Rules.set
  verifiable_set named fuel es s =
      and_then (Rules.set kind n unmarshal xpath named fuel (map without_log_end es) s) λ (err, s').
        elim err [
          | some e ↦ returned (some e, s')
          | none ↦
              if is_empty (logged es)
              then returned (none, s')
              else Rules.set kind n unmarshal xpath named fuel (logged es) s'
        ]

  -- The loop of `VerifiableEdit`
  unfoldable pub edit_all : List Entry → S → Option Error × S
  unfolding Rules.edit
  edit_all [] s = (none, s)
  edit_all (e ∷ es) s =
      let (err, s') = Rules.edit kind n unmarshal xpath (without_log_end e) s in
      let rest = edit_all es s' in elim err [ some x ↦ (some x, s') | none ↦ rest ]

  -- `VerifiableEdit`
  unfoldable pub verifiable_edit :
      (List Entry → List String) → ℕ → List Entry → S → Run Entry S (Option Error × S)
  unfolding Rules.set
  verifiable_edit named fuel es s =
      let (err, s') = edit_all es s in
      elim err [
        | some e ↦ returned (some e, s')
        | none ↦
            if is_empty (logged es)
            then returned (none, s')
            else Rules.set kind n unmarshal xpath named fuel (logged es) s'
      ]

  -- `DeleteAll`
  unfoldable pub delete_all : S → Option (Option Error × S)
  unfolding Rules.list_by Rules.delete
  delete_all s = do
    ((err, list), s') ← Rules.list_by kind n unmarshal xpath "get" s
    elim err [
      | some e ↦ some (some e, s')
      | none ↦
          if is_empty (items list)
          then some (none, s')
          else some (Rules.delete kind n unmarshal xpath (map (λ v. by_name v) (items list)) s')
    ]
