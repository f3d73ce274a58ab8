-- ===== src/Netw/Bgp/Advertise.antt =====
-- netw/routing/protocol/bgp/conadv/filter/advertise/: the advertise filters of a BGP conditional advertisement, with the struct of each version of PAN-OS and the
-- namespace of a firewall and that of a Panorama.
use pango.Base.{
  pos, String, List, [], ◌∷◌, ◌++◌, Option, none, some, Bool, false, not, ◌==◌, if◌then◌else◌,
}
use pango.Util.Flag.{yes_no, as_bool}
use pango.Util.Member.{MemberType, mem_to_str, str_to_mem, EntryType, ent_to_str, str_to_ent}
use pango.Util.Xpath.{as_entry_xpath, template_xpath_prefix}
use pango.Version.{Number, gte}
use pango.Entries.{
  Kind, Con, Operations, Answer, operations, called, needs, needs_template, ◌or_else◌,
}

pub record Entry : Type 0 where
  pub name : String
  pub enable : Bool
  pub as_path_regex : String
  pub community_regex : String
  pub extended_community_regex : String
  pub med : String
  pub route_table : String
  pub address_prefix : Option (List String)
  pub next_hop : Option (List String)
  pub from_peer : Option (List String)

-- `Entry{}`
abbrev pub no_entry : Entry
no_entry = record {
  name = "";
  enable = false;
  as_path_regex = "";
  community_regex = "";
  extended_community_regex = "";
  med = "";
  route_table = "";
  address_prefix = none;
  next_hop = none;
  from_peer = none;
}

-- `Copy`, of `s` to `o`; the name is kept.
unfoldable pub copy : Entry → Entry → Entry
copy o s = record o {
  enable = s.enable;
  as_path_regex = s.as_path_regex;
  community_regex = s.community_regex;
  extended_community_regex = s.extended_community_regex;
  med = s.med;
  route_table = s.route_table;
  address_prefix = s.address_prefix;
  next_hop = s.next_hop;
  from_peer = s.from_peer;
}

pub record Regex : Type 0 where
  pub regex : String

pub record EntryV1 : Type 0 where
  pub name : String
  pub enable : String
  pub as_path_regex : Option Regex
  pub community_regex : Option Regex
  pub extended_community_regex : Option Regex
  pub med : String
  pub address_prefix : Option EntryType
  pub next_hop : Option MemberType
  pub from_peer : Option MemberType

pub record EntryV2 : Type 0 where
  pub name : String
  pub enable : String
  pub as_path_regex : Option Regex
  pub community_regex : Option Regex
  pub extended_community_regex : Option Regex
  pub med : String
  pub route_table : String
  pub address_prefix : Option EntryType
  pub next_hop : Option MemberType
  pub from_peer : Option MemberType

unfoldable pub specify_v1 : Entry → EntryV1
unfolding str_to_mem yes_no str_to_ent
specify_v1 e = record {
  name = e.name;
  enable = yes_no e.enable;
  as_path_regex =
      if not (e.as_path_regex == "") then some (record { regex = e.as_path_regex }) else none;
  community_regex =
      if not (e.community_regex == "") then some (record { regex = e.community_regex }) else none;
  extended_community_regex =
      if not (e.extended_community_regex == "")
      then some (record { regex = e.extended_community_regex })
      else none;
  med = e.med;
  address_prefix = str_to_ent e.address_prefix;
  next_hop = str_to_mem e.next_hop;
  from_peer = str_to_mem e.from_peer;
}

unfoldable pub normalize_v1 : EntryV1 → Entry
unfolding mem_to_str as_bool ent_to_str
normalize_v1 o = record {
  name = o.name;
  enable = as_bool o.enable;
  as_path_regex = elim o.as_path_regex [ none ↦ "" | some as_path_regex ↦ as_path_regex.regex ];
  community_regex = elim o.community_regex [
    | none ↦ ""
    | some community_regex ↦ community_regex.regex
  ];
  extended_community_regex = elim o.extended_community_regex [
    | none ↦ ""
    | some extended_community_regex ↦ extended_community_regex.regex
  ];
  med = o.med;
  route_table = "";
  address_prefix = ent_to_str o.address_prefix;
  next_hop = mem_to_str o.next_hop;
  from_peer = mem_to_str o.from_peer;
}

unfoldable pub specify_v2 : Entry → EntryV2
unfolding str_to_mem yes_no str_to_ent
specify_v2 e = record {
  name = e.name;
  enable = yes_no e.enable;
  as_path_regex =
      if not (e.as_path_regex == "") then some (record { regex = e.as_path_regex }) else none;
  community_regex =
      if not (e.community_regex == "") then some (record { regex = e.community_regex }) else none;
  extended_community_regex =
      if not (e.extended_community_regex == "")
      then some (record { regex = e.extended_community_regex })
      else none;
  med = e.med;
  route_table = e.route_table;
  address_prefix = str_to_ent e.address_prefix;
  next_hop = str_to_mem e.next_hop;
  from_peer = str_to_mem e.from_peer;
}

unfoldable pub normalize_v2 : EntryV2 → Entry
unfolding mem_to_str as_bool ent_to_str
normalize_v2 o = record {
  name = o.name;
  enable = as_bool o.enable;
  as_path_regex = elim o.as_path_regex [ none ↦ "" | some as_path_regex ↦ as_path_regex.regex ];
  community_regex = elim o.community_regex [
    | none ↦ ""
    | some community_regex ↦ community_regex.regex
  ];
  extended_community_regex = elim o.extended_community_regex [
    | none ↦ ""
    | some extended_community_regex ↦ extended_community_regex.regex
  ];
  med = o.med;
  route_table = o.route_table;
  address_prefix = ent_to_str o.address_prefix;
  next_hop = mem_to_str o.next_hop;
  from_peer = mem_to_str o.from_peer;
}

abbrev pub no_entry_v1 : EntryV1
no_entry_v1 = record {
  name = "";
  enable = "";
  as_path_regex = none;
  community_regex = none;
  extended_community_regex = none;
  med = "";
  address_prefix = none;
  next_hop = none;
  from_peer = none;
}

abbrev pub no_entry_v2 : EntryV2
no_entry_v2 = record {
  name = "";
  enable = "";
  as_path_regex = none;
  community_regex = none;
  extended_community_regex = none;
  med = "";
  route_table = "";
  address_prefix = none;
  next_hop = none;
  from_peer = none;
}

-- The struct of each version.
pub data Object : Type 0 where
  v1 : EntryV1 → Object
  v2 : EntryV2 → Object

abbrev pub since_v2 : Number
since_v2 = record { major = pos 8; minor = pos 0; patch = pos 0; suffix = "" }

unfoldable pub specify : Number → Entry → Object
unfolding gte specify_v1 specify_v2
specify version e = if gte version since_v2 then v2 (specify_v2 e) else v1 (specify_v1 e)

unfoldable pub normalize : Object → Entry
unfolding normalize_v1 normalize_v2
normalize (v1 o) = normalize_v1 o
normalize (v2 o) = normalize_v2 o

unfoldable pub no_object : Number → Object
unfolding gte
no_object version = if gte version since_v2 then v2 no_entry_v2 else v1 no_entry_v1

-- `versioning`
unfoldable pub versioning : Number → Kind Entry Object (Answer Object)
unfolding specify normalize no_object
versioning version = record {
  name_of = λ e. e.name;
  specify = specify version;
  normalize = λ o. normalize o.answer;
  no_entry = no_entry;
  no_answer = record { answer = no_object version };
}

unfoldable pub fw_xpath : String → String → List String → List String
unfolding as_entry_xpath
fw_xpath vr ca vals =
    "config"
    ∷ "devices"
    ∷ as_entry_xpath ("localhost.localdomain" ∷ [])
    ∷ "network"
    ∷ "virtual-router"
    ∷ as_entry_xpath (vr ∷ [])
    ∷ "protocol"
    ∷ "bgp"
    ∷ "policy"
    ∷ "conditional-advertisement"
    ∷ "policy"
    ∷ as_entry_xpath (ca ∷ [])
    ∷ "advertise-filters"
    ∷ as_entry_xpath vals
    ∷ []

unfoldable pub fw :
    {S : Type 0} → Number → Con S Object (Answer Object) → String → String → Operations S Entry
unfolding operations versioning fw_xpath
fw version con vr ca =
    operations (versioning version) con (fw_xpath vr ca) (called "advertise-filters")
      "Unknown type sent to delete: %s"
      (needs "vr must be specified" vr or_else needs "ca must be specified" ca)

unfoldable pub pano_xpath : String → String → String → String → List String → List String
unfolding as_entry_xpath template_xpath_prefix
pano_xpath tmpl ts vr ca vals =
    template_xpath_prefix tmpl ts
    ++ "config"
      ∷ "devices"
      ∷ as_entry_xpath ("localhost.localdomain" ∷ [])
      ∷ "network"
      ∷ "virtual-router"
      ∷ as_entry_xpath (vr ∷ [])
      ∷ "protocol"
      ∷ "bgp"
      ∷ "policy"
      ∷ "conditional-advertisement"
      ∷ "policy"
      ∷ as_entry_xpath (ca ∷ [])
      ∷ "advertise-filters"
      ∷ as_entry_xpath vals
      ∷ []

unfoldable pub pano :
    {S : Type 0}
    → Number
    → Con S Object (Answer Object)
    → String
    → String
    → String
    → String
    → Operations S Entry
unfolding operations versioning pano_xpath
pano version con tmpl ts vr ca =
    operations (versioning version) con (pano_xpath tmpl ts vr ca) (called "advertise-filters")
      "Unknown type sent to delete: %s"
      (needs_template tmpl ts
        or_else needs "vr must be specified" vr
        or_else needs "ca must be specified" ca)
