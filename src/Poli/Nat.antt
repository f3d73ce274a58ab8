-- ===== src/Poli/Nat.antt =====
-- poli/nat/entry.go and poli/nat/const.go: the NAT rule, apart from any version of PAN-OS. A slice and a
-- map are options, whose `none` is nil.
pub mod Xlate
pub mod Xml
pub mod Fw
pub mod Pano
pub mod Translation
pub mod RoundTrip
mod Tests
use pango.Base.{
  String, List, [], ◌∷◌, Bool, true, false, Option, none, some, ℤ, pos, items, is_empty, ◌==◌,
  if◌then◌else◌,
}
use pango.Util.Target.{Targets}

abbrev pub dynamic_ip_and_port : String
dynamic_ip_and_port = "dynamic-ip-and-port"

abbrev pub dynamic_ip : String
dynamic_ip = "dynamic-ip"

abbrev pub static_ip : String
static_ip = "static-ip"

abbrev pub interface_address : String
interface_address = "interface-address"

abbrev pub translated_address : String
translated_address = "translated-address"

abbrev pub none_type : String
none_type = "none"

abbrev pub ip_type : String
ip_type = "ip"

abbrev pub floating_ip : String
floating_ip = "floating"

abbrev pub dat_type_static : String
dat_type_static = "destination-translation"

abbrev pub dat_type_dynamic : String
dat_type_dynamic = "dynamic-destination-translation"

pub record Entry : Type 0 where
  pub name : String
  pub description : String
  pub type : String
  pub source_zones : Option (List String)
  pub destination_zone : String
  pub to_interface : String
  pub service : String
  pub source_addresses : Option (List String)
  pub destination_addresses : Option (List String)
  pub sat_type : String
  pub sat_address_type : String
  pub sat_translated_addresses : Option (List String)
  pub sat_interface : String
  pub sat_ip_address : String
  pub sat_fallback_type : String
  pub sat_fallback_translated_addresses : Option (List String)
  pub sat_fallback_interface : String
  pub sat_fallback_ip_type : String
  pub sat_fallback_ip_address : String
  pub sat_static_translated_address : String
  pub sat_static_bi_directional : Bool
  pub dat_type : String
  pub dat_address : String
  pub dat_port : ℤ
  pub dat_dynamic_distribution : String
  pub disabled : Bool
  pub targets : Option Targets
  pub negate_target : Bool
  pub tags : Option (List String)

-- `Entry{}`
abbrev pub no_entry : Entry
no_entry = record {
  name = "";
  description = "";
  type = "";
  source_zones = none;
  destination_zone = "";
  to_interface = "";
  service = "";
  source_addresses = none;
  destination_addresses = none;
  sat_type = "";
  sat_address_type = "";
  sat_translated_addresses = none;
  sat_interface = "";
  sat_ip_address = "";
  sat_fallback_type = "";
  sat_fallback_translated_addresses = none;
  sat_fallback_interface = "";
  sat_fallback_ip_type = "";
  sat_fallback_ip_address = "";
  sat_static_translated_address = "";
  sat_static_bi_directional = false;
  dat_type = "";
  dat_address = "";
  dat_port = pos 0;
  dat_dynamic_distribution = "";
  disabled = false;
  targets = none;
  negate_target = false;
  tags = none;
}

-- `Defaults`
unfoldable pub defaults : Entry → Entry
defaults o = record {
  name = o.name;
  description = o.description;
  type = if o.type == "" then "ipv4" else o.type;
  source_zones = o.source_zones;
  destination_zone = o.destination_zone;
  to_interface = if o.to_interface == "" then "any" else o.to_interface;
  service = if o.service == "" then "any" else o.service;
  source_addresses =
      if is_empty (items o.source_addresses) then some ("any" ∷ []) else o.source_addresses;
  destination_addresses =
      if is_empty (items o.destination_addresses)
      then some ("any" ∷ [])
      else o.destination_addresses;
  sat_type = if o.sat_type == "" then none_type else o.sat_type;
  sat_address_type = o.sat_address_type;
  sat_translated_addresses = o.sat_translated_addresses;
  sat_interface = o.sat_interface;
  sat_ip_address = o.sat_ip_address;
  sat_fallback_type = o.sat_fallback_type;
  sat_fallback_translated_addresses = o.sat_fallback_translated_addresses;
  sat_fallback_interface = o.sat_fallback_interface;
  sat_fallback_ip_type = o.sat_fallback_ip_type;
  sat_fallback_ip_address = o.sat_fallback_ip_address;
  sat_static_translated_address = o.sat_static_translated_address;
  sat_static_bi_directional = o.sat_static_bi_directional;
  dat_type = if o.dat_type == "" then dat_type_static else o.dat_type;
  dat_address = o.dat_address;
  dat_port = o.dat_port;
  dat_dynamic_distribution = o.dat_dynamic_distribution;
  disabled = o.disabled;
  targets = o.targets;
  negate_target = o.negate_target;
  tags = o.tags;
}

-- `Copy`, of `s` to `o`; the name is kept.
unfoldable pub copy : Entry → Entry → Entry
copy o s = record {
  name = o.name;
  description = s.description;
  type = s.type;
  source_zones = s.source_zones;
  destination_zone = s.destination_zone;
  to_interface = s.to_interface;
  service = s.service;
  source_addresses = s.source_addresses;
  destination_addresses = s.destination_addresses;
  sat_type = s.sat_type;
  sat_address_type = s.sat_address_type;
  sat_translated_addresses = s.sat_translated_addresses;
  sat_interface = s.sat_interface;
  sat_ip_address = s.sat_ip_address;
  sat_fallback_type = s.sat_fallback_type;
  sat_fallback_translated_addresses = s.sat_fallback_translated_addresses;
  sat_fallback_interface = s.sat_fallback_interface;
  sat_fallback_ip_type = s.sat_fallback_ip_type;
  sat_fallback_ip_address = s.sat_fallback_ip_address;
  sat_static_translated_address = s.sat_static_translated_address;
  sat_static_bi_directional = s.sat_static_bi_directional;
  dat_type = s.dat_type;
  dat_address = s.dat_address;
  dat_port = s.dat_port;
  dat_dynamic_distribution = s.dat_dynamic_distribution;
  disabled = s.disabled;
  targets = s.targets;
  negate_target = s.negate_target;
  tags = s.tags;
}
