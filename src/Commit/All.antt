-- ===== src/Commit/All.antt =====
-- `PanoramaCommitAll` of commit/pano.go, with commit/const.go: the push of a Panorama, as the struct that
-- is sent.
use pango.Base.{String, List, Bool, Option, none, some, ◌==◌, if◌then◌else◌}
use pango.Util.Flag.{yes_no}
use pango.Util.Member.{MemberType, str_to_mem, EntryType, str_to_ent}

abbrev pub type_device_group : String
type_device_group = "device group"

abbrev pub type_template : String
type_template = "template"

abbrev pub type_template_stack : String
type_template_stack = "template stack"

abbrev pub type_log_collector_group : String
type_log_collector_group = "log collector group"

abbrev pub type_wildfire_appliance : String
type_wildfire_appliance = "wildfire appliance"

abbrev pub type_wildfire_cluster : String
type_wildfire_cluster = "wildfire cluster"

pub record PanoramaCommitAll : Type 0 where
  pub type : String
  pub name : String
  pub description : String
  pub include_template : Bool
  pub force_template_values : Bool
  pub devices : Option (List String)

-- `pcaDgInfoEntry`, which stands alone in `pcaDgInfo`.
pub record PcaDgInfoEntry : Type 0 where
  pub name : String
  pub devices : Option EntryType

pub record PcaDeviceGroup : Type 0 where
  pub entry : PcaDgInfoEntry
  pub description : String
  pub include_template : String
  pub force_template_values : String

pub record PcaTemplate : Type 0 where
  pub name : String
  pub description : String
  pub devices : Option MemberType
  pub force_template_values : String

pub record PcaLogCollectorGroup : Type 0 where
  pub name : String
  pub description : String

pub record PcaWildfire : Type 0 where
  pub description : String
  pub appliance : String
  pub cluster : String

pub record PanoCommitAll : Type 0 where
  pub device_group : Option PcaDeviceGroup
  pub template : Option PcaTemplate
  pub template_stack : Option PcaTemplate
  pub log_collector_group : Option PcaLogCollectorGroup
  pub wildfire : Option PcaWildfire

abbrev pub empty : PanoCommitAll
empty = record {
  device_group = none;
  template = none;
  template_stack = none;
  log_collector_group = none;
  wildfire = none;
}

abbrev pub device_group_of : PanoramaCommitAll → PcaDeviceGroup
device_group_of o = record {
  entry = record { name = o.name; devices = str_to_ent o.devices };
  description = o.description;
  include_template = yes_no o.include_template;
  force_template_values = yes_no o.force_template_values;
}

abbrev pub template_of : PanoramaCommitAll → PcaTemplate
template_of o = record {
  name = o.name;
  description = o.description;
  devices = str_to_mem o.devices;
  force_template_values = yes_no o.force_template_values;
}

-- `PanoramaCommitAll.Element`
unfoldable pub all_element : PanoramaCommitAll → PanoCommitAll
unfolding str_to_ent str_to_mem yes_no
all_element o =
    if o.type == type_device_group
    then record empty { device_group = some (device_group_of o) }
    else if o.type == type_template
    then record empty { template = some (template_of o) }
    else if o.type == type_template_stack
    then record empty { template_stack = some (template_of o) }
    else if o.type == type_log_collector_group
    then record empty {
      log_collector_group = some (record { name = o.name; description = o.description });
    }
    else if o.type == type_wildfire_appliance
    then record empty {
      wildfire = some (record { description = o.description; appliance = o.name; cluster = "" });
    }
    else if o.type == type_wildfire_cluster
    then record empty {
      wildfire = some (record { description = o.description; appliance = ""; cluster = o.name });
    }
    else empty
