-- ===== src/Dev/Http/Header.antt =====
-- dev/profile/http/header/: the HTTP headers of a log format in an HTTP profile, with the struct of each version of PAN-OS and the
-- namespace of a firewall and that of a Panorama.
use pango.Base.{String, List, [], ◌∷◌, ◌++◌, ◌≡◌}
use pango.Util.Xpath.{as_entry_xpath, vsys_xpath_prefix}
use pango.Entries.{
  Kind, Con, Operations, Answer, operations, called_by_path, needs, ◌or_else◌, or_shared,
  profile_prefix,
}

pub record Entry : Type 0 where
  pub name : String
  pub value : String

-- `Entry{}`
abbrev pub no_entry : Entry
no_entry = record { name = ""; value = "" }

-- `Copy`, of `s` to `o`; the name is kept.
unfoldable pub copy : Entry → Entry → Entry
copy o s = record o { value = s.value }

pub record EntryV1 : Type 0 where
  pub name : String
  pub value : String

unfoldable pub specify_v1 : Entry → EntryV1
specify_v1 e = record { name = e.name; value = e.value }

unfoldable pub normalize_v1 : EntryV1 → Entry
normalize_v1 o = record { name = o.name; value = o.value }

abbrev pub no_entry_v1 : EntryV1
no_entry_v1 = record { name = ""; value = "" }

-- `versioning`
unfoldable pub versioning : Kind Entry EntryV1 (Answer EntryV1)
unfolding specify_v1 normalize_v1
versioning = record {
  name_of = λ e. e.name;
  specify = specify_v1;
  normalize = λ o. normalize_v1 o.answer;
  no_entry = no_entry;
  no_answer = record { answer = no_entry_v1 };
}

unfoldable pub fw_xpath : String → String → String → List String → List String
unfolding as_entry_xpath vsys_xpath_prefix
fw_xpath vsys profile logtype vals =
    vsys_xpath_prefix (or_shared vsys)
    ++ "log-settings"
      ∷ "http"
      ∷ as_entry_xpath (profile ∷ [])
      ∷ "format"
      ∷ logtype
      ∷ "headers"
      ∷ as_entry_xpath vals
      ∷ []

unfoldable pub fw :
    {S : Type 0} → Con S EntryV1 (Answer EntryV1) → String → String → String → Operations S Entry
unfolding operations versioning fw_xpath
fw con vsys profile logtype =
    operations versioning con (fw_xpath vsys profile logtype) called_by_path
      "Unknown type sent to delete: %s"
      (needs "profile must be specified" profile or_else needs "logtype must be specified" logtype)

unfoldable pub pano_xpath :
    String → String → String → String → String → String → List String → List String
unfolding as_entry_xpath profile_prefix
pano_xpath tmpl ts vsys dg profile logtype vals =
    profile_prefix tmpl ts vsys dg
    ++ "log-settings"
      ∷ "http"
      ∷ as_entry_xpath (profile ∷ [])
      ∷ "format"
      ∷ logtype
      ∷ "headers"
      ∷ as_entry_xpath vals
      ∷ []

unfoldable pub pano :
    {S : Type 0}
    → Con S EntryV1 (Answer EntryV1)
    → String
    → String
    → String
    → String
    → String
    → String
    → Operations S Entry
unfolding operations versioning pano_xpath
pano con tmpl ts vsys dg profile logtype =
    operations versioning con (pano_xpath tmpl ts vsys dg profile logtype) called_by_path
      "Unknown type sent to delete: %s"
      (needs "profile must be specified" profile or_else needs "logtype must be specified" logtype)

pub normalize-specify_v1 : (e : Entry) → normalize_v1 (specify_v1 e) ≡ e
unfolding normalize_v1 specify_v1
normalize-specify_v1 e = λ i. record { name = e.name; value = e.value }
