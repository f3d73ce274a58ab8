-- ===== src/Netw/Bgp/Redist.antt =====
-- netw/routing/protocol/bgp/redist/: the BGP redistribution rules, with the struct of each version of PAN-OS and the
-- namespace of a firewall and that of a Panorama.
use pango.Base.{ℤ, pos, String, List, [], ◌∷◌, ◌++◌, Option, none, Bool, false, if◌then◌else◌, ◌≡◌}
use pango.Util.Flag.{yes_no, as_bool, as_bool-yes_no}
use pango.Util.Member.{MemberType, mem_to_str, str_to_mem, mem_to_str-str_to_mem}
use pango.Util.Xpath.{as_entry_xpath, template_xpath_prefix}
use pango.Version.{Number, gte}
use pango.Entries.{
  Kind, Con, Operations, Answer, operations, called, needs, needs_template, ◌or_else◌,
}

pub record Entry : Type 0 where
  pub name : String
  pub enable : Bool
  pub address_family : String
  pub route_table : String
  pub metric : ℤ
  pub set_origin : String
  pub set_med : String
  pub set_local_preference : String
  pub set_as_path_limit : ℤ
  pub set_community : Option (List String)
  pub set_extended_community : Option (List String)

-- `Entry{}`
abbrev pub no_entry : Entry
no_entry = record {
  name = "";
  enable = false;
  address_family = "";
  route_table = "";
  metric = pos 0;
  set_origin = "";
  set_med = "";
  set_local_preference = "";
  set_as_path_limit = pos 0;
  set_community = none;
  set_extended_community = none;
}

-- `Copy`, of `s` to `o`; the name is kept.
unfoldable pub copy : Entry → Entry → Entry
copy o s = record o {
  enable = s.enable;
  address_family = s.address_family;
  route_table = s.route_table;
  metric = s.metric;
  set_origin = s.set_origin;
  set_med = s.set_med;
  set_local_preference = s.set_local_preference;
  set_as_path_limit = s.set_as_path_limit;
  set_community = s.set_community;
  set_extended_community = s.set_extended_community;
}

pub record EntryV1 : Type 0 where
  pub name : String
  pub enable : String
  pub metric : ℤ
  pub set_origin : String
  pub set_med : String
  pub set_local_preference : String
  pub set_as_path_limit : ℤ
  pub set_community : Option MemberType
  pub set_extended_community : Option MemberType

pub record EntryV2 : Type 0 where
  pub name : String
  pub enable : String
  pub address_family : String
  pub route_table : String
  pub metric : ℤ
  pub set_origin : String
  pub set_med : String
  pub set_local_preference : String
  pub set_as_path_limit : ℤ
  pub set_community : Option MemberType
  pub set_extended_community : Option MemberType

unfoldable pub specify_v1 : Entry → EntryV1
unfolding str_to_mem yes_no
specify_v1 e = record {
  name = e.name;
  enable = yes_no e.enable;
  metric = e.metric;
  set_origin = e.set_origin;
  set_med = e.set_med;
  set_local_preference = e.set_local_preference;
  set_as_path_limit = e.set_as_path_limit;
  set_community = str_to_mem e.set_community;
  set_extended_community = str_to_mem e.set_extended_community;
}

unfoldable pub normalize_v1 : EntryV1 → Entry
unfolding mem_to_str as_bool
normalize_v1 o = record {
  name = o.name;
  enable = as_bool o.enable;
  address_family = "";
  route_table = "";
  metric = o.metric;
  set_origin = o.set_origin;
  set_med = o.set_med;
  set_local_preference = o.set_local_preference;
  set_as_path_limit = o.set_as_path_limit;
  set_community = mem_to_str o.set_community;
  set_extended_community = mem_to_str o.set_extended_community;
}

unfoldable pub specify_v2 : Entry → EntryV2
unfolding str_to_mem yes_no
specify_v2 e = record {
  name = e.name;
  enable = yes_no e.enable;
  address_family = e.address_family;
  route_table = e.route_table;
  metric = e.metric;
  set_origin = e.set_origin;
  set_med = e.set_med;
  set_local_preference = e.set_local_preference;
  set_as_path_limit = e.set_as_path_limit;
  set_community = str_to_mem e.set_community;
  set_extended_community = str_to_mem e.set_extended_community;
}

unfoldable pub normalize_v2 : EntryV2 → Entry
unfolding mem_to_str as_bool
normalize_v2 o = record {
  name = o.name;
  enable = as_bool o.enable;
  address_family = o.address_family;
  route_table = o.route_table;
  metric = o.metric;
  set_origin = o.set_origin;
  set_med = o.set_med;
  set_local_preference = o.set_local_preference;
  set_as_path_limit = o.set_as_path_limit;
  set_community = mem_to_str o.set_community;
  set_extended_community = mem_to_str o.set_extended_community;
}

abbrev pub no_entry_v1 : EntryV1
no_entry_v1 = record {
  name = "";
  enable = "";
  metric = pos 0;
  set_origin = "";
  set_med = "";
  set_local_preference = "";
  set_as_path_limit = pos 0;
  set_community = none;
  set_extended_community = none;
}

abbrev pub no_entry_v2 : EntryV2
no_entry_v2 = record {
  name = "";
  enable = "";
  address_family = "";
  route_table = "";
  metric = pos 0;
  set_origin = "";
  set_med = "";
  set_local_preference = "";
  set_as_path_limit = pos 0;
  set_community = none;
  set_extended_community = none;
}

-- The struct of each version.
pub data Object : Type 0 where
  v1 : EntryV1 → Object
  v2 : EntryV2 → Object

abbrev pub since_v2 : Number
since_v2 = record { major = pos 8; minor = pos 0; patch = pos 0; suffix = "" }

unfoldable pub specify : Number → Entry → Object
unfolding gte specify_v1 specify_v2
specify version e = if gte version since_v2 then v2 (specify_v2 e) else v1 (specify_v1 e)

unfoldable pub normalize : Object → Entry
unfolding normalize_v1 normalize_v2
normalize (v1 o) = normalize_v1 o
normalize (v2 o) = normalize_v2 o

unfoldable pub no_object : Number → Object
unfolding gte
no_object version = if gte version since_v2 then v2 no_entry_v2 else v1 no_entry_v1

-- `versioning`
unfoldable pub versioning : Number → Kind Entry Object (Answer Object)
unfolding specify normalize no_object
versioning version = record {
  name_of = λ e. e.name;
  specify = specify version;
  normalize = λ o. normalize o.answer;
  no_entry = no_entry;
  no_answer = record { answer = no_object version };
}

unfoldable pub fw_xpath : String → List String → List String
unfolding as_entry_xpath
fw_xpath vr vals =
    "config"
    ∷ "devices"
    ∷ as_entry_xpath ("localhost.localdomain" ∷ [])
    ∷ "network"
    ∷ "virtual-router"
    ∷ as_entry_xpath (vr ∷ [])
    ∷ "protocol"
    ∷ "bgp"
    ∷ "redist-rules"
    ∷ as_entry_xpath vals
    ∷ []

unfoldable pub fw :
    {S : Type 0} → Number → Con S Object (Answer Object) → String → Operations S Entry
unfolding operations versioning fw_xpath
fw version con vr =
    operations (versioning version) con (fw_xpath vr) (called "redist-rules")
      "Unknown type sent to delete: %s" (needs "vr must be specified" vr)

unfoldable pub pano_xpath : String → String → String → List String → List String
unfolding as_entry_xpath template_xpath_prefix
pano_xpath tmpl ts vr vals =
    template_xpath_prefix tmpl ts
    ++ "config"
      ∷ "devices"
      ∷ as_entry_xpath ("localhost.localdomain" ∷ [])
      ∷ "network"
      ∷ "virtual-router"
      ∷ as_entry_xpath (vr ∷ [])
      ∷ "protocol"
      ∷ "bgp"
      ∷ "redist-rules"
      ∷ as_entry_xpath vals
      ∷ []

unfoldable pub pano :
    {S : Type 0}
    → Number
    → Con S Object (Answer Object)
    → String
    → String
    → String
    → Operations S Entry
unfolding operations versioning pano_xpath
pano version con tmpl ts vr =
    operations (versioning version) con (pano_xpath tmpl ts vr) (called "redist-rules")
      "Unknown type sent to delete: %s"
      (needs_template tmpl ts or_else needs "vr must be specified" vr)

pub normalize-specify_v2 : (e : Entry) → normalize_v2 (specify_v2 e) ≡ e
unfolding normalize_v2 specify_v2
normalize-specify_v2 e = λ i. record {
  name = e.name;
  enable = as_bool-yes_no e.enable i;
  address_family = e.address_family;
  route_table = e.route_table;
  metric = e.metric;
  set_origin = e.set_origin;
  set_med = e.set_med;
  set_local_preference = e.set_local_preference;
  set_as_path_limit = e.set_as_path_limit;
  set_community = mem_to_str-str_to_mem e.set_community i;
  set_extended_community = mem_to_str-str_to_mem e.set_extended_community i;
}
