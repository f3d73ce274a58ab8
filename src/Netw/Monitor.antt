-- ===== src/Netw/Monitor.antt =====
-- netw/profile/monitor/: the monitor profiles, with the struct of each version of PAN-OS and the
-- namespace of a firewall and that of a Panorama.
use pango.Base.{ℤ, pos, String, List, [], ◌∷◌, ◌++◌, none, ◌≡◌}
use pango.Util.Xpath.{as_entry_xpath, template_xpath_prefix}
use pango.Entries.{Kind, Con, Operations, Answer, operations, called_by_path, needs_template}

pub record Entry : Type 0 where
  pub name : String
  pub interval : ℤ
  pub threshold : ℤ
  pub action : String

-- `Entry{}`
abbrev pub no_entry : Entry
no_entry = record { name = ""; interval = pos 0; threshold = pos 0; action = "" }

-- `Copy`, of `s` to `o`; the name is kept.
unfoldable pub copy : Entry → Entry → Entry
copy o s = record o { interval = s.interval; threshold = s.threshold; action = s.action }

pub record EntryV1 : Type 0 where
  pub name : String
  pub interval : ℤ
  pub threshold : ℤ
  pub action : String

unfoldable pub specify_v1 : Entry → EntryV1
specify_v1 e = record {
  name = e.name;
  interval = e.interval;
  threshold = e.threshold;
  action = e.action;
}

unfoldable pub normalize_v1 : EntryV1 → Entry
normalize_v1 o = record {
  name = o.name;
  interval = o.interval;
  threshold = o.threshold;
  action = o.action;
}

abbrev pub no_entry_v1 : EntryV1
no_entry_v1 = record { name = ""; interval = pos 0; threshold = pos 0; action = "" }

-- `versioning`
unfoldable pub versioning : Kind Entry EntryV1 (Answer EntryV1)
unfolding specify_v1 normalize_v1
versioning = record {
  name_of = λ e. e.name;
  specify = specify_v1;
  normalize = λ o. normalize_v1 o.answer;
  no_entry = no_entry;
  no_answer = record { answer = no_entry_v1 };
}

unfoldable pub fw_xpath : List String → List String
unfolding as_entry_xpath
fw_xpath vals =
    "config"
    ∷ "devices"
    ∷ as_entry_xpath ("localhost.localdomain" ∷ [])
    ∷ "network"
    ∷ "profiles"
    ∷ "monitor-profile"
    ∷ as_entry_xpath vals
    ∷ []

unfoldable pub fw : {S : Type 0} → Con S EntryV1 (Answer EntryV1) → Operations S Entry
unfolding operations versioning fw_xpath
fw con = operations versioning con fw_xpath called_by_path "Unknown type sent to delete: %s" none

unfoldable pub pano_xpath : String → String → List String → List String
unfolding as_entry_xpath template_xpath_prefix
pano_xpath tmpl ts vals =
    template_xpath_prefix tmpl ts
    ++ "config"
      ∷ "devices"
      ∷ as_entry_xpath ("localhost.localdomain" ∷ [])
      ∷ "network"
      ∷ "profiles"
      ∷ "monitor-profile"
      ∷ as_entry_xpath vals
      ∷ []

unfoldable pub pano :
    {S : Type 0} → Con S EntryV1 (Answer EntryV1) → String → String → Operations S Entry
unfolding operations versioning pano_xpath
pano con tmpl ts =
    operations versioning con (pano_xpath tmpl ts) called_by_path "Unknown type sent to delete: %s"
      (needs_template tmpl ts)

pub normalize-specify_v1 : (e : Entry) → normalize_v1 (specify_v1 e) ≡ e
unfolding normalize_v1 specify_v1
normalize-specify_v1 e =
    λ i. record { name = e.name; interval = e.interval; threshold = e.threshold; action = e.action }
