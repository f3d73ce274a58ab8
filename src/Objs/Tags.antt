-- ===== src/Objs/Tags.antt =====
-- objs/tags/: the administrative tags, with the struct of each version of PAN-OS and the
-- namespace of a firewall and that of a Panorama.
use pango.Base.{ℤ, pos, int_eq, int, sprintf, if◌then◌else◌, String, List, [], ◌∷◌, ◌++◌, none, ◌≡◌}
use pango.Util.Xpath.{as_entry_xpath, vsys_xpath_prefix, device_group_xpath_prefix}
use pango.Entries.{Kind, Con, Operations, Answer, operations, called}

pub record Entry : Type 0 where
  pub name : String
  pub color : String
  pub comment : String

-- `Entry{}`
abbrev pub no_entry : Entry
no_entry = record { name = ""; color = ""; comment = "" }

-- `Copy`, of `s` to `o`; the name is kept.
unfoldable pub copy : Entry → Entry → Entry
copy o s = record o { color = s.color; comment = s.comment }

-- `SetColor`
unfoldable pub set_color : ℤ → Entry → Entry
unfolding sprintf
set_color v o =
    if int_eq v (pos 0)
    then record o { color = "" }
    else record o { color = sprintf "color%d" (int v ∷ []) }

pub record EntryV1 : Type 0 where
  pub name : String
  pub color : String
  pub comment : String

unfoldable pub specify_v1 : Entry → EntryV1
specify_v1 e = record { name = e.name; color = e.color; comment = e.comment }

unfoldable pub normalize_v1 : EntryV1 → Entry
normalize_v1 o = record { name = o.name; color = o.color; comment = o.comment }

abbrev pub no_entry_v1 : EntryV1
no_entry_v1 = record { name = ""; color = ""; comment = "" }

-- `versioning`
unfoldable pub versioning : Kind Entry EntryV1 (Answer EntryV1)
unfolding specify_v1 normalize_v1
versioning = record {
  name_of = λ e. e.name;
  specify = specify_v1;
  normalize = λ o. normalize_v1 o.answer;
  no_entry = no_entry;
  no_answer = record { answer = no_entry_v1 };
}

unfoldable pub fw_xpath : String → List String → List String
unfolding as_entry_xpath vsys_xpath_prefix
fw_xpath vsys vals = vsys_xpath_prefix vsys ++ "tag" ∷ as_entry_xpath vals ∷ []

unfoldable pub fw : {S : Type 0} → Con S EntryV1 (Answer EntryV1) → String → Operations S Entry
unfolding operations versioning fw_xpath
fw con vsys =
    operations versioning con (fw_xpath vsys) (called "tag") "Unsupported type to delete: %s" none

unfoldable pub pano_xpath : String → List String → List String
unfolding as_entry_xpath device_group_xpath_prefix
pano_xpath dg vals = device_group_xpath_prefix dg ++ "tag" ∷ as_entry_xpath vals ∷ []

unfoldable pub pano : {S : Type 0} → Con S EntryV1 (Answer EntryV1) → String → Operations S Entry
unfolding operations versioning pano_xpath
pano con dg =
    operations versioning con (pano_xpath dg) (called "tag") "Unsupported type to delete: %s" none

pub normalize-specify_v1 : (e : Entry) → normalize_v1 (specify_v1 e) ≡ e
unfolding normalize_v1 specify_v1
normalize-specify_v1 e = λ i. record { name = e.name; color = e.color; comment = e.comment }
