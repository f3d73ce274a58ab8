-- ===== src/Objs/Addr.antt =====
-- objs/addr/: the address objects, with the struct of each version of PAN-OS and the
-- namespace of a firewall and that of a Panorama.
pub mod RoundTrip
pub mod Access
use pango.Base.{
  Error, pos, String, List, [], ◌∷◌, ◌++◌, Option, none, some, ◌==◌, if◌then◌else◌, map,
}
use pango.Util.Member.{MemberType, mem_to_str, str_to_mem}
use pango.Util.Xpath.{as_entry_xpath, vsys_xpath_prefix, device_group_xpath_prefix}
use pango.Version.{Number, gte}
use pango.Entries.{Kind, Con, Operations, operations, called, first_entry, read_all}

abbrev pub ip_netmask : String
ip_netmask = "ip-netmask"

abbrev pub ip_range : String
ip_range = "ip-range"

abbrev pub fqdn : String
fqdn = "fqdn"

abbrev pub ip_wildcard : String
ip_wildcard = "ip-wildcard"

pub record Entry : Type 0 where
  pub name : String
  pub value : String
  pub type : String
  pub description : String
  pub tags : Option (List String)

-- `Entry{}`
abbrev pub no_entry : Entry
no_entry = record { name = ""; value = ""; type = ""; description = ""; tags = none }

-- `Copy`, of `s` to `o`; the name is kept.
unfoldable pub copy : Entry → Entry → Entry
copy o s = record o { value = s.value; type = s.type; description = s.description; tags = s.tags }

pub record ValType : Type 0 where
  pub value : String

pub record EntryV1 : Type 0 where
  pub name : String
  pub ip_netmask : Option ValType
  pub ip_range : Option ValType
  pub fqdn : Option ValType
  pub description : String
  pub tags : Option MemberType

pub record EntryV2 : Type 0 where
  pub name : String
  pub ip_netmask : Option ValType
  pub ip_range : Option ValType
  pub fqdn : Option ValType
  pub ip_wildcard : Option ValType
  pub description : String
  pub tags : Option MemberType

unfoldable pub specify_v1 : Entry → EntryV1
unfolding str_to_mem
specify_v1 e = record {
  name = e.name;
  ip_netmask = if e.type == ip_netmask then some (record { value = e.value }) else none;
  ip_range =
      if e.type == ip_netmask
      then none
      else if e.type == ip_range
      then some (record { value = e.value })
      else none;
  fqdn =
      if e.type == ip_netmask
      then none
      else if e.type == ip_range
      then none
      else if e.type == fqdn
      then some (record { value = e.value })
      else none;
  description = e.description;
  tags = str_to_mem e.tags;
}

unfoldable pub normalize_v1 : EntryV1 → Entry
unfolding mem_to_str
normalize_v1 o = record {
  name = o.name;
  value = elim o.ip_netmask [
    | none ↦ elim o.ip_range [
      | none ↦ elim o.fqdn [ none ↦ "" | some fqdn' ↦ fqdn'.value ]
      | some ip_range' ↦ ip_range'.value
    ]
    | some ip_netmask' ↦ ip_netmask'.value
  ];
  type = elim o.ip_netmask [
    | none ↦ elim o.ip_range [
      | none ↦ elim o.fqdn [ none ↦ "" | some fqdn' ↦ fqdn ]
      | some ip_range' ↦ ip_range
    ]
    | some ip_netmask' ↦ ip_netmask
  ];
  description = o.description;
  tags = mem_to_str o.tags;
}

unfoldable pub specify_v2 : Entry → EntryV2
unfolding str_to_mem
specify_v2 e = record {
  name = e.name;
  ip_netmask = if e.type == ip_netmask then some (record { value = e.value }) else none;
  ip_range =
      if e.type == ip_netmask
      then none
      else if e.type == ip_range
      then some (record { value = e.value })
      else none;
  fqdn =
      if e.type == ip_netmask
      then none
      else if e.type == ip_range
      then none
      else if e.type == fqdn
      then some (record { value = e.value })
      else none;
  ip_wildcard =
      if e.type == ip_netmask
      then none
      else if e.type == ip_range
      then none
      else if e.type == fqdn
      then none
      else if e.type == ip_wildcard
      then some (record { value = e.value })
      else none;
  description = e.description;
  tags = str_to_mem e.tags;
}

unfoldable pub normalize_v2 : EntryV2 → Entry
unfolding mem_to_str
normalize_v2 o = record {
  name = o.name;
  value = elim o.ip_netmask [
    | none ↦ elim o.ip_range [
      | none ↦ elim o.fqdn [
        | none ↦ elim o.ip_wildcard [ none ↦ "" | some ip_wildcard' ↦ ip_wildcard'.value ]
        | some fqdn' ↦ fqdn'.value
      ]
      | some ip_range' ↦ ip_range'.value
    ]
    | some ip_netmask' ↦ ip_netmask'.value
  ];
  type = elim o.ip_netmask [
    | none ↦ elim o.ip_range [
      | none ↦ elim o.fqdn [
        | none ↦ elim o.ip_wildcard [ none ↦ "" | some ip_wildcard' ↦ ip_wildcard ]
        | some fqdn' ↦ fqdn
      ]
      | some ip_range' ↦ ip_range
    ]
    | some ip_netmask' ↦ ip_netmask
  ];
  description = o.description;
  tags = mem_to_str o.tags;
}

-- The struct of each version.
pub data Object : Type 0 where
  v1 : EntryV1 → Object
  v2 : EntryV2 → Object

abbrev pub since_v2 : Number
since_v2 = record { major = pos 9; minor = pos 0; patch = pos 0; suffix = "" }

unfoldable pub specify : Number → Entry → Object
unfolding gte specify_v1 specify_v2
specify version e = if gte version since_v2 then v2 (specify_v2 e) else v1 (specify_v1 e)

unfoldable pub normalize : Object → Entry
unfolding normalize_v1 normalize_v2
normalize (v1 o) = normalize_v1 o
normalize (v2 o) = normalize_v2 o

-- The container of each version.
pub data Container : Type 0 where
  all_v1 : List EntryV1 → Container
  all_v2 : List EntryV2 → Container

unfoldable pub normalize_all : Container → List Entry
unfolding normalize_v1 normalize_v2
normalize_all (all_v1 os) = map normalize_v1 os
normalize_all (all_v2 os) = map normalize_v2 os

unfoldable pub no_container : Number → Container
unfolding gte
no_container version = if gte version since_v2 then all_v2 [] else all_v1 []

-- `versioning`
unfoldable pub versioning : Number → Kind Entry Object Container
unfolding specify normalize_all no_container first_entry
versioning version = record {
  name_of = λ e. e.name;
  specify = specify version;
  normalize = λ o. first_entry no_entry (normalize_all o);
  no_entry = no_entry;
  no_answer = no_container version;
}

unfoldable pub fw_xpath : String → List String → List String
unfolding as_entry_xpath vsys_xpath_prefix
fw_xpath vsys vals = vsys_xpath_prefix vsys ++ "address" ∷ as_entry_xpath vals ∷ []

unfoldable pub fw : {S : Type 0} → Number → Con S Object Container → String → Operations S Entry
unfolding operations versioning fw_xpath
fw version con vsys =
    operations (versioning version) con (fw_xpath vsys) (called "address")
      "Unsupported type to delete: %s" none

-- `GetAll`
unfoldable pub fw_get_all :
    {S : Type 0}
    → Number
    → Con S Object Container
    → String
    → S
    → (Option Error × Option (List Entry)) × S
unfolding read_all versioning normalize_all fw_xpath
fw_get_all version con vsys s =
    read_all (versioning version) con (fw_xpath vsys) normalize_all con.get s

-- `ShowAll`
unfoldable pub fw_show_all :
    {S : Type 0}
    → Number
    → Con S Object Container
    → String
    → S
    → (Option Error × Option (List Entry)) × S
unfolding read_all versioning normalize_all fw_xpath
fw_show_all version con vsys s =
    read_all (versioning version) con (fw_xpath vsys) normalize_all con.show s

unfoldable pub pano_xpath : String → List String → List String
unfolding as_entry_xpath device_group_xpath_prefix
pano_xpath dg vals = device_group_xpath_prefix dg ++ "address" ∷ as_entry_xpath vals ∷ []

unfoldable pub pano : {S : Type 0} → Number → Con S Object Container → String → Operations S Entry
unfolding operations versioning pano_xpath
pano version con dg =
    operations (versioning version) con (pano_xpath dg) (called "address")
      "Unsupported type to delete: %s" none

-- `GetAll`
unfoldable pub pano_get_all :
    {S : Type 0}
    → Number
    → Con S Object Container
    → String
    → S
    → (Option Error × Option (List Entry)) × S
unfolding read_all versioning normalize_all pano_xpath
pano_get_all version con dg s =
    read_all (versioning version) con (pano_xpath dg) normalize_all con.get s

-- `ShowAll`
unfoldable pub pano_show_all :
    {S : Type 0}
    → Number
    → Con S Object Container
    → String
    → S
    → (Option Error × Option (List Entry)) × S
unfolding read_all versioning normalize_all pano_xpath
pano_show_all version con dg s =
    read_all (versioning version) con (pano_xpath dg) normalize_all con.show s
