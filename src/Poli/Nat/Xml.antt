-- ===== src/Poli/Nat/Xml.antt =====
-- The XML structs of poli/nat/entry.go for each version, and both directions between them and the rule.
-- A pointer is an option. The struct `targetInfo` is the one of poli/security.
use pango.Base.{
  String, List, [], Bool, not, ◌||◌, Option, none, some, items, is_empty, map, pos, if◌then◌else◌,
}
use pango.Util.Flag.{yes_no, as_bool}
use pango.Util.Member.{MemberType, mem_to_str, str_to_mem}
use pango.Util.Target.{Targets, map_to_vsys_ent}
use pango.Version.{Number, gte}
use pango.Poli.Security.Xml.{TargetInfo, target_map, target_negated}
use pango.Poli.Rules.{Kind}
use pango.Poli.Nat.{Entry, no_entry}
use pango.Poli.Nat.Xlate.{
  SrcXlate, DstXlate, Sat, Dat, read_sat, read_dats, write_sat, write_static, write_dynamic,
}

abbrev pub sat_of : Entry → Sat
sat_of e = record {
  type = e.sat_type;
  address_type = e.sat_address_type;
  translated_addresses = e.sat_translated_addresses;
  interface = e.sat_interface;
  ip_address = e.sat_ip_address;
  fallback_type = e.sat_fallback_type;
  fallback_translated_addresses = e.sat_fallback_translated_addresses;
  fallback_interface = e.sat_fallback_interface;
  fallback_ip_type = e.sat_fallback_ip_type;
  fallback_ip_address = e.sat_fallback_ip_address;
  static_translated_address = e.sat_static_translated_address;
  static_bi_directional = e.sat_static_bi_directional;
}

abbrev pub dat_of : Entry → Dat
dat_of e = record {
  type = e.dat_type;
  address = e.dat_address;
  port = e.dat_port;
  dynamic_distribution = e.dat_dynamic_distribution;
}

abbrev pub target_info : Option Targets → Bool → Option TargetInfo
target_info targets negated =
    if not (is_empty (items targets)) || negated
    then some (record { targets = map_to_vsys_ent targets; negate_target = yes_no negated })
    else none

pub record EntryV1 : Type 0 where
  pub name : String
  pub description : String
  pub type : String
  pub source_zones : Option MemberType
  pub destination_zone : String
  pub to_interface : String
  pub service : String
  pub source_addresses : Option MemberType
  pub destination_addresses : Option MemberType
  pub sat : Option SrcXlate
  pub dat : Option DstXlate
  pub disabled : String
  pub target : Option TargetInfo
  pub tags : Option MemberType

-- `normalize` of `entry_v1`
unfoldable pub normalize_v1 : EntryV1 → Entry
unfolding mem_to_str as_bool read_sat read_dats
normalize_v1 o = record {
  name = o.name;
  description = o.description;
  type = o.type;
  source_zones = mem_to_str o.source_zones;
  destination_zone = o.destination_zone;
  to_interface = o.to_interface;
  service = o.service;
  source_addresses = mem_to_str o.source_addresses;
  destination_addresses = mem_to_str o.destination_addresses;
  sat_type = (read_sat o.sat).type;
  sat_address_type = (read_sat o.sat).address_type;
  sat_translated_addresses = (read_sat o.sat).translated_addresses;
  sat_interface = (read_sat o.sat).interface;
  sat_ip_address = (read_sat o.sat).ip_address;
  sat_fallback_type = (read_sat o.sat).fallback_type;
  sat_fallback_translated_addresses = (read_sat o.sat).fallback_translated_addresses;
  sat_fallback_interface = (read_sat o.sat).fallback_interface;
  sat_fallback_ip_type = (read_sat o.sat).fallback_ip_type;
  sat_fallback_ip_address = (read_sat o.sat).fallback_ip_address;
  sat_static_translated_address = (read_sat o.sat).static_translated_address;
  sat_static_bi_directional = (read_sat o.sat).static_bi_directional;
  dat_type = (read_dats o.dat none).type;
  dat_address = (read_dats o.dat none).address;
  dat_port = (read_dats o.dat none).port;
  dat_dynamic_distribution = (read_dats o.dat none).dynamic_distribution;
  disabled = as_bool o.disabled;
  targets = target_map o.target;
  negate_target = target_negated o.target;
  tags = mem_to_str o.tags;
}

unfoldable pub specify_v1 : Entry → EntryV1
unfolding str_to_mem yes_no write_sat write_static
specify_v1 e = record {
  name = e.name;
  description = e.description;
  type = e.type;
  source_zones = str_to_mem e.source_zones;
  destination_zone = e.destination_zone;
  to_interface = e.to_interface;
  service = e.service;
  source_addresses = str_to_mem e.source_addresses;
  destination_addresses = str_to_mem e.destination_addresses;
  sat = write_sat (sat_of e);
  dat = write_static (dat_of e);
  disabled = yes_no e.disabled;
  target = target_info e.targets e.negate_target;
  tags = str_to_mem e.tags;
}

pub record EntryV2 : Type 0 where
  pub name : String
  pub description : String
  pub type : String
  pub source_zones : Option MemberType
  pub destination_zone : String
  pub to_interface : String
  pub service : String
  pub source_addresses : Option MemberType
  pub destination_addresses : Option MemberType
  pub sat : Option SrcXlate
  pub dat : Option DstXlate
  pub dat_dynamic : Option DstXlate
  pub disabled : String
  pub target : Option TargetInfo
  pub tags : Option MemberType

-- `normalize` of `entry_v2`
unfoldable pub normalize_v2 : EntryV2 → Entry
unfolding mem_to_str as_bool read_sat read_dats
normalize_v2 o = record {
  name = o.name;
  description = o.description;
  type = o.type;
  source_zones = mem_to_str o.source_zones;
  destination_zone = o.destination_zone;
  to_interface = o.to_interface;
  service = o.service;
  source_addresses = mem_to_str o.source_addresses;
  destination_addresses = mem_to_str o.destination_addresses;
  sat_type = (read_sat o.sat).type;
  sat_address_type = (read_sat o.sat).address_type;
  sat_translated_addresses = (read_sat o.sat).translated_addresses;
  sat_interface = (read_sat o.sat).interface;
  sat_ip_address = (read_sat o.sat).ip_address;
  sat_fallback_type = (read_sat o.sat).fallback_type;
  sat_fallback_translated_addresses = (read_sat o.sat).fallback_translated_addresses;
  sat_fallback_interface = (read_sat o.sat).fallback_interface;
  sat_fallback_ip_type = (read_sat o.sat).fallback_ip_type;
  sat_fallback_ip_address = (read_sat o.sat).fallback_ip_address;
  sat_static_translated_address = (read_sat o.sat).static_translated_address;
  sat_static_bi_directional = (read_sat o.sat).static_bi_directional;
  dat_type = (read_dats o.dat o.dat_dynamic).type;
  dat_address = (read_dats o.dat o.dat_dynamic).address;
  dat_port = (read_dats o.dat o.dat_dynamic).port;
  dat_dynamic_distribution = (read_dats o.dat o.dat_dynamic).dynamic_distribution;
  disabled = as_bool o.disabled;
  targets = target_map o.target;
  negate_target = target_negated o.target;
  tags = mem_to_str o.tags;
}

unfoldable pub specify_v2 : Entry → EntryV2
unfolding str_to_mem yes_no write_sat write_static write_dynamic
specify_v2 e = record {
  name = e.name;
  description = e.description;
  type = e.type;
  source_zones = str_to_mem e.source_zones;
  destination_zone = e.destination_zone;
  to_interface = e.to_interface;
  service = e.service;
  source_addresses = str_to_mem e.source_addresses;
  destination_addresses = str_to_mem e.destination_addresses;
  sat = write_sat (sat_of e);
  dat = write_static (dat_of e);
  dat_dynamic = write_dynamic (dat_of e);
  disabled = yes_no e.disabled;
  target = target_info e.targets e.negate_target;
  tags = str_to_mem e.tags;
}

-- What a rule is specified as, and what a response is unmarshalled into, in the one version or the
-- other.
pub data Object : Type 0 where
  v1 : EntryV1 → Object
  v2 : EntryV2 → Object

pub data Container : Type 0 where
  container_v1 : List EntryV1 → Container
  container_v2 : List EntryV2 → Container

-- `version.Number{8, 1, 0, ""}`
abbrev pub dynamic_since : Number
dynamic_since = record { major = pos 8; minor = pos 1; patch = pos 0; suffix = "" }

unfoldable pub specify : Number → Entry → Object
unfolding specify_v1 specify_v2 gte
specify version e = if gte version dynamic_since then v2 (specify_v2 e) else v1 (specify_v1 e)

unfoldable pub normalize : Object → Entry
unfolding normalize_v1 normalize_v2
normalize (v1 o) = normalize_v1 o
normalize (v2 o) = normalize_v2 o

unfoldable pub names : Container → List String
names (container_v1 answer) = map (λ o. o.name) answer
names (container_v2 answer) = map (λ o. o.name) answer

unfoldable pub normalize_all : Container → List Entry
unfolding normalize_v1 normalize_v2
normalize_all (container_v1 answer) = map normalize_v1 answer
normalize_all (container_v2 answer) = map normalize_v2 answer

-- `versioning`, by the version of PAN-OS that the client says.
unfoldable pub versioning : Number → Kind Entry Object Container
unfolding gte
versioning version = record {
  name_of = λ e. e.name;
  specify = specify version;
  names = names;
  normalize_all = normalize_all;
  no_entry = no_entry;
  unknown = "Unsupported type to delete: %s";
  no_answer = if gte version dynamic_since then container_v2 [] else container_v1 [];
}
