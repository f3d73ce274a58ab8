-- ===== src/Objs/Srvcgrp.antt =====
-- objs/srvcgrp/: the service groups, with the struct of each version of PAN-OS and the
-- namespace of a firewall and that of a Panorama.
use pango.Base.{String, List, [], ◌∷◌, ◌++◌, Option, none, ◌≡◌}
use pango.Util.Member.{MemberType, mem_to_str, str_to_mem, mem_to_str-str_to_mem}
use pango.Util.Xpath.{as_entry_xpath, vsys_xpath_prefix, device_group_xpath_prefix}
use pango.Entries.{Kind, Con, Operations, Answer, operations, called}

pub record Entry : Type 0 where
  pub name : String
  pub services : Option (List String)
  pub tags : Option (List String)

-- `Entry{}`
abbrev pub no_entry : Entry
no_entry = record { name = ""; services = none; tags = none }

-- `Copy`, of `s` to `o`; the name is kept.
unfoldable pub copy : Entry → Entry → Entry
copy o s = record o { services = s.services; tags = s.tags }

pub record EntryV1 : Type 0 where
  pub name : String
  pub services : Option MemberType
  pub tags : Option MemberType

unfoldable pub specify_v1 : Entry → EntryV1
unfolding str_to_mem
specify_v1 e = record { name = e.name; services = str_to_mem e.services; tags = str_to_mem e.tags }

unfoldable pub normalize_v1 : EntryV1 → Entry
unfolding mem_to_str
normalize_v1 o = record {
  name = o.name;
  services = mem_to_str o.services;
  tags = mem_to_str o.tags;
}

abbrev pub no_entry_v1 : EntryV1
no_entry_v1 = record { name = ""; services = none; tags = none }

-- `versioning`
unfoldable pub versioning : Kind Entry EntryV1 (Answer EntryV1)
unfolding specify_v1 normalize_v1
versioning = record {
  name_of = λ e. e.name;
  specify = specify_v1;
  normalize = λ o. normalize_v1 o.answer;
  no_entry = no_entry;
  no_answer = record { answer = no_entry_v1 };
}

unfoldable pub fw_xpath : String → List String → List String
unfolding as_entry_xpath vsys_xpath_prefix
fw_xpath vsys vals = vsys_xpath_prefix vsys ++ "service-group" ∷ as_entry_xpath vals ∷ []

unfoldable pub fw : {S : Type 0} → Con S EntryV1 (Answer EntryV1) → String → Operations S Entry
unfolding operations versioning fw_xpath
fw con vsys =
    operations versioning con (fw_xpath vsys) (called "service-group")
      "Unsupported type to delete: %s" none

unfoldable pub pano_xpath : String → List String → List String
unfolding as_entry_xpath device_group_xpath_prefix
pano_xpath dg vals = device_group_xpath_prefix dg ++ "service-group" ∷ as_entry_xpath vals ∷ []

unfoldable pub pano : {S : Type 0} → Con S EntryV1 (Answer EntryV1) → String → Operations S Entry
unfolding operations versioning pano_xpath
pano con dg =
    operations versioning con (pano_xpath dg) (called "service-group")
      "Unsupported type to delete: %s" none

pub normalize-specify_v1 : (e : Entry) → normalize_v1 (specify_v1 e) ≡ e
unfolding normalize_v1 specify_v1
normalize-specify_v1 e = λ i. record {
  name = e.name;
  services = mem_to_str-str_to_mem e.services i;
  tags = mem_to_str-str_to_mem e.tags i;
}
