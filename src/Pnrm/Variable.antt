-- ===== src/Pnrm/Variable.antt =====
-- pnrm/template/variable/: the variables of a template, with the struct of each version of PAN-OS and the
-- namespace of a Panorama.
use pango.Base.{String, List, [], ◌∷◌, ◌++◌, not, ◌==◌, if◌then◌else◌}
use pango.Util.Xpath.{as_entry_xpath, template_xpath_prefix}
use pango.Entries.{Kind, Con, Operations, Answer, operations, called, needs_template}

abbrev pub type_ip_netmask : String
type_ip_netmask = "ip-netmask"

abbrev pub type_ip_range : String
type_ip_range = "ip-range"

abbrev pub type_fqdn : String
type_fqdn = "fqdn"

abbrev pub type_group_id : String
type_group_id = "group-id"

abbrev pub type_interface : String
type_interface = "interface"

pub record Entry : Type 0 where
  pub name : String
  pub type : String
  pub value : String

-- `Entry{}`
abbrev pub no_entry : Entry
no_entry = record { name = ""; type = ""; value = "" }

-- `Copy`, of `s` to `o`; the name is kept.
unfoldable pub copy : Entry → Entry → Entry
copy o s = record o { type = s.type; value = s.value }

pub record EntryV1 : Type 0 where
  pub name : String
  pub ip_netmask : String
  pub ip_range : String
  pub fqdn : String
  pub group_id : String
  pub interface : String

unfoldable pub specify_v1 : Entry → EntryV1
specify_v1 e = record {
  name = e.name;
  ip_netmask = if e.type == type_ip_netmask then e.value else "";
  ip_range =
      if e.type == type_ip_netmask then "" else if e.type == type_ip_range then e.value else "";
  fqdn =
      if e.type == type_ip_netmask
      then ""
      else if e.type == type_ip_range
      then ""
      else if e.type == type_fqdn
      then e.value
      else "";
  group_id =
      if e.type == type_ip_netmask
      then ""
      else if e.type == type_ip_range
      then ""
      else if e.type == type_fqdn
      then ""
      else if e.type == type_group_id
      then e.value
      else "";
  interface =
      if e.type == type_ip_netmask
      then ""
      else if e.type == type_ip_range
      then ""
      else if e.type == type_fqdn
      then ""
      else if e.type == type_group_id
      then ""
      else if e.type == type_interface
      then e.value
      else "";
}

unfoldable pub normalize_v1 : EntryV1 → Entry
normalize_v1 o = record {
  name = o.name;
  type =
      if not (o.ip_netmask == "")
      then type_ip_netmask
      else if not (o.ip_range == "")
      then type_ip_range
      else if not (o.fqdn == "")
      then type_fqdn
      else if not (o.group_id == "")
      then type_group_id
      else if not (o.interface == "")
      then type_interface
      else "";
  value =
      if not (o.ip_netmask == "")
      then o.ip_netmask
      else if not (o.ip_range == "")
      then o.ip_range
      else if not (o.fqdn == "")
      then o.fqdn
      else if not (o.group_id == "")
      then o.group_id
      else if not (o.interface == "")
      then o.interface
      else "";
}

abbrev pub no_entry_v1 : EntryV1
no_entry_v1 = record {
  name = "";
  ip_netmask = "";
  ip_range = "";
  fqdn = "";
  group_id = "";
  interface = "";
}

-- `versioning`
unfoldable pub versioning : Kind Entry EntryV1 (Answer EntryV1)
unfolding specify_v1 normalize_v1
versioning = record {
  name_of = λ e. e.name;
  specify = specify_v1;
  normalize = λ o. normalize_v1 o.answer;
  no_entry = no_entry;
  no_answer = record { answer = no_entry_v1 };
}

unfoldable pub pano_xpath : String → String → List String → List String
unfolding as_entry_xpath template_xpath_prefix
pano_xpath tmpl ts vals = template_xpath_prefix tmpl ts ++ "variable" ∷ as_entry_xpath vals ∷ []

unfoldable pub pano :
    {S : Type 0} → Con S EntryV1 (Answer EntryV1) → String → String → Operations S Entry
unfolding operations versioning pano_xpath
pano con tmpl ts =
    operations versioning con (pano_xpath tmpl ts) (called "variable")
      "Unknown type sent to delete: %s" (needs_template tmpl ts)
