-- ===== src/Dev/EmailServer.antt =====
-- dev/profile/email/server/: the servers of an email profile, with the struct of each version of PAN-OS and the
-- namespace of a firewall and that of a Panorama.
use pango.Base.{String, List, [], ◌∷◌, ◌++◌, none, ◌≡◌}
use pango.Util.Xpath.{as_entry_xpath, vsys_xpath_prefix}
use pango.Entries.{
  Kind, Con, Operations, Answer, operations, called_by_path, needs, or_shared, profile_prefix,
}

pub record Entry : Type 0 where
  pub name : String
  pub display_name : String
  pub from : String
  pub to : String
  pub also_to : String
  pub email_gateway : String

-- `Entry{}`
abbrev pub no_entry : Entry
no_entry = record {
  name = "";
  display_name = "";
  from = "";
  to = "";
  also_to = "";
  email_gateway = "";
}

-- `Copy`, of `s` to `o`; the name is kept.
unfoldable pub copy : Entry → Entry → Entry
copy o s = record o {
  display_name = s.display_name;
  from = s.from;
  to = s.to;
  also_to = s.also_to;
  email_gateway = s.email_gateway;
}

pub record EntryV1 : Type 0 where
  pub name : String
  pub display_name : String
  pub from : String
  pub to : String
  pub also_to : String
  pub email_gateway : String

unfoldable pub specify_v1 : Entry → EntryV1
specify_v1 e = record {
  name = e.name;
  display_name = e.display_name;
  from = e.from;
  to = e.to;
  also_to = e.also_to;
  email_gateway = e.email_gateway;
}

unfoldable pub normalize_v1 : EntryV1 → Entry
normalize_v1 o = record {
  name = o.name;
  display_name = o.display_name;
  from = o.from;
  to = o.to;
  also_to = o.also_to;
  email_gateway = o.email_gateway;
}

abbrev pub no_entry_v1 : EntryV1
no_entry_v1 = record {
  name = "";
  display_name = "";
  from = "";
  to = "";
  also_to = "";
  email_gateway = "";
}

-- `versioning`
unfoldable pub versioning : Kind Entry EntryV1 (Answer EntryV1)
unfolding specify_v1 normalize_v1
versioning = record {
  name_of = λ e. e.name;
  specify = specify_v1;
  normalize = λ o. normalize_v1 o.answer;
  no_entry = no_entry;
  no_answer = record { answer = no_entry_v1 };
}

unfoldable pub fw_xpath : String → String → List String → List String
unfolding as_entry_xpath vsys_xpath_prefix
fw_xpath vsys profile vals =
    vsys_xpath_prefix (or_shared vsys)
    ++ "log-settings"
      ∷ "email"
      ∷ as_entry_xpath (profile ∷ [])
      ∷ "server"
      ∷ as_entry_xpath vals
      ∷ []

unfoldable pub fw :
    {S : Type 0} → Con S EntryV1 (Answer EntryV1) → String → String → Operations S Entry
unfolding operations versioning fw_xpath
fw con vsys profile =
    operations versioning con (fw_xpath vsys profile) called_by_path
      "Unknown type sent to delete: %s" (needs "profile must be specified" profile)

unfoldable pub pano_xpath : String → String → String → String → String → List String → List String
unfolding as_entry_xpath profile_prefix
pano_xpath tmpl ts vsys dg profile vals =
    profile_prefix tmpl ts vsys dg
    ++ "log-settings"
      ∷ "email"
      ∷ as_entry_xpath (profile ∷ [])
      ∷ "server"
      ∷ as_entry_xpath vals
      ∷ []

unfoldable pub pano :
    {S : Type 0}
    → Con S EntryV1 (Answer EntryV1)
    → String
    → String
    → String
    → String
    → String
    → Operations S Entry
unfolding operations versioning pano_xpath
pano con tmpl ts vsys dg profile =
    operations versioning con (pano_xpath tmpl ts vsys dg profile) called_by_path
      "Unknown type sent to delete: %s" none

pub normalize-specify_v1 : (e : Entry) → normalize_v1 (specify_v1 e) ≡ e
unfolding normalize_v1 specify_v1
normalize-specify_v1 e = λ i. record {
  name = e.name;
  display_name = e.display_name;
  from = e.from;
  to = e.to;
  also_to = e.also_to;
  email_gateway = e.email_gateway;
}
