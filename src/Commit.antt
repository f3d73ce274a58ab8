-- ===== src/Commit.antt =====
-- commit/: the commands of a commit, as the structs that are sent. A slice and a pointer are options,
-- whose `none` is nil.
pub mod All
pub mod RoundTrip
mod Tests
use pango.Base.{
  String, List, [], ◌∷◌, Bool, true, false, not, ◌||◌, Option, none, some, items, is_empty, ◌==◌,
  if◌then◌else◌,
}
use pango.Util.Flag.{yes_no}
use pango.Util.Member.{MemberType, str_to_mem, EntryType, str_to_ent}

-- `"excluded"`, or nothing.
abbrev pub excluded_if : Bool → String
excluded_if b = if b then "excluded" else ""

-- A commit with its optional part, which a forced one has inside.
pub record Commit (Partial : Type 0) : Type 0 where
  pub description : String
  pub force : Option (Option Partial)
  pub partial : Option Partial

abbrev pub wrapped : {Partial : Type 0} → String → Bool → Option Partial → Commit Partial
wrapped description force p =
    if force
    then record { description = description; force = some p; partial = none }
    else record { description = description; force = none; partial = p }

pub record FirewallCommit : Type 0 where
  pub description : String
  pub admins : Option (List String)
  pub exclude_device_and_network : Bool
  pub exclude_shared_objects : Bool
  pub exclude_policy_and_objects : Bool
  pub force : Bool

pub record FwPartialCommit : Type 0 where
  pub admins : Option MemberType
  pub exclude_device_and_network : String
  pub exclude_shared_objects : String
  pub exclude_policy_and_objects : String

abbrev pub fw_partial : FirewallCommit → Option FwPartialCommit
fw_partial o =
    if not (is_empty (items o.admins))
      || (o.exclude_device_and_network
          || (o.exclude_shared_objects || o.exclude_policy_and_objects))
    then some (record {
      admins = str_to_mem o.admins;
      exclude_device_and_network = excluded_if o.exclude_device_and_network;
      exclude_shared_objects = excluded_if o.exclude_shared_objects;
      exclude_policy_and_objects = excluded_if o.exclude_policy_and_objects;
    })
    else none

-- `FirewallCommit.Element`
unfoldable pub firewall_element : FirewallCommit → Commit FwPartialCommit
unfolding str_to_mem
firewall_element o = wrapped o.description o.force (fw_partial o)

pub record PanoramaCommit : Type 0 where
  pub description : String
  pub admins : Option (List String)
  pub device_groups : Option (List String)
  pub templates : Option (List String)
  pub template_stacks : Option (List String)
  pub wildfire_appliances : Option (List String)
  pub wildfire_clusters : Option (List String)
  pub log_collectors : Option (List String)
  pub log_collector_groups : Option (List String)
  pub exclude_device_and_network : Bool
  pub exclude_shared_objects : Bool
  pub force : Bool

pub record PanoPartialCommit : Type 0 where
  pub admins : Option MemberType
  pub device_groups : Option MemberType
  pub templates : Option MemberType
  pub template_stacks : Option MemberType
  pub wildfire_appliances : Option MemberType
  pub wildfire_clusters : Option MemberType
  pub log_collectors : Option MemberType
  pub log_collector_groups : Option MemberType
  pub exclude_device_and_network : String
  pub exclude_shared_objects : String

-- Whether some part of the configuration is chosen or left out.
abbrev pub is_partial : PanoramaCommit → Bool
is_partial o =
    not (is_empty (items o.admins))
    || not (is_empty (items o.device_groups))
    || not (is_empty (items o.wildfire_appliances))
    || not (is_empty (items o.wildfire_clusters))
    || not (is_empty (items o.log_collectors))
    || not (is_empty (items o.log_collector_groups))
    || not (is_empty (items o.templates))
    || not (is_empty (items o.template_stacks))
    || o.exclude_device_and_network
    || o.exclude_shared_objects

abbrev pub pano_partial : PanoramaCommit → Option PanoPartialCommit
pano_partial o =
    if is_partial o
    then some (record {
      admins = str_to_mem o.admins;
      device_groups = str_to_mem o.device_groups;
      templates = str_to_mem o.templates;
      template_stacks = str_to_mem o.template_stacks;
      wildfire_appliances = str_to_mem o.wildfire_appliances;
      wildfire_clusters = str_to_mem o.wildfire_clusters;
      log_collectors = str_to_mem o.log_collectors;
      log_collector_groups = str_to_mem o.log_collector_groups;
      exclude_device_and_network = excluded_if o.exclude_device_and_network;
      exclude_shared_objects = excluded_if o.exclude_shared_objects;
    })
    else none

-- `PanoramaCommit.Element`
unfoldable pub panorama_element : PanoramaCommit → Commit PanoPartialCommit
unfolding str_to_mem
panorama_element o = wrapped o.description o.force (pano_partial o)
