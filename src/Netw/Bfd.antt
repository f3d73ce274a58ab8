-- ===== src/Netw/Bfd.antt =====
-- netw/profile/bfd/: the BFD profiles, with the struct of each version of PAN-OS and the
-- namespace of a firewall and that of a Panorama.
use pango.Base.{ℤ, pos, int_eq, String, List, [], ◌∷◌, ◌++◌, Option, none, some, not, if◌then◌else◌}
use pango.Util.Xpath.{as_entry_xpath, template_xpath_prefix}
use pango.Entries.{Kind, Con, Operations, Answer, operations, called, needs_template}

pub record Entry : Type 0 where
  pub name : String
  pub mode : String
  pub minimum_tx_interval : ℤ
  pub minimum_rx_interval : ℤ
  pub detection_multiplier : ℤ
  pub hold_time : ℤ
  pub minimum_rx_ttl : ℤ

-- `Entry{}`
abbrev pub no_entry : Entry
no_entry = record {
  name = "";
  mode = "";
  minimum_tx_interval = pos 0;
  minimum_rx_interval = pos 0;
  detection_multiplier = pos 0;
  hold_time = pos 0;
  minimum_rx_ttl = pos 0;
}

-- `Copy`, of `s` to `o`; the name is kept.
unfoldable pub copy : Entry → Entry → Entry
copy o s = record o {
  mode = s.mode;
  minimum_tx_interval = s.minimum_tx_interval;
  minimum_rx_interval = s.minimum_rx_interval;
  detection_multiplier = s.detection_multiplier;
  hold_time = s.hold_time;
  minimum_rx_ttl = s.minimum_rx_ttl;
}

pub record Multihop : Type 0 where
  pub minimum_rx_ttl : ℤ

pub record EntryV1 : Type 0 where
  pub name : String
  pub mode : String
  pub minimum_tx_interval : ℤ
  pub minimum_rx_interval : ℤ
  pub detection_multiplier : ℤ
  pub hold_time : ℤ
  pub multihop : Option Multihop

unfoldable pub specify_v1 : Entry → EntryV1
specify_v1 e = record {
  name = e.name;
  mode = e.mode;
  minimum_tx_interval = e.minimum_tx_interval;
  minimum_rx_interval = e.minimum_rx_interval;
  detection_multiplier = e.detection_multiplier;
  hold_time = e.hold_time;
  multihop =
      if not (int_eq e.minimum_rx_ttl (pos 0))
      then some (record { minimum_rx_ttl = e.minimum_rx_ttl })
      else none;
}

unfoldable pub normalize_v1 : EntryV1 → Entry
normalize_v1 o = record {
  name = o.name;
  mode = o.mode;
  minimum_tx_interval = o.minimum_tx_interval;
  minimum_rx_interval = o.minimum_rx_interval;
  detection_multiplier = o.detection_multiplier;
  hold_time = o.hold_time;
  minimum_rx_ttl = elim o.multihop [ none ↦ pos 0 | some multihop ↦ multihop.minimum_rx_ttl ];
}

abbrev pub no_entry_v1 : EntryV1
no_entry_v1 = record {
  name = "";
  mode = "";
  minimum_tx_interval = pos 0;
  minimum_rx_interval = pos 0;
  detection_multiplier = pos 0;
  hold_time = pos 0;
  multihop = none;
}

-- `versioning`
unfoldable pub versioning : Kind Entry EntryV1 (Answer EntryV1)
unfolding specify_v1 normalize_v1
versioning = record {
  name_of = λ e. e.name;
  specify = specify_v1;
  normalize = λ o. normalize_v1 o.answer;
  no_entry = no_entry;
  no_answer = record { answer = no_entry_v1 };
}

unfoldable pub fw_xpath : List String → List String
unfolding as_entry_xpath
fw_xpath vals =
    "config"
    ∷ "devices"
    ∷ as_entry_xpath ("localhost.localdomain" ∷ [])
    ∷ "network"
    ∷ "profiles"
    ∷ "bfd-profile"
    ∷ as_entry_xpath vals
    ∷ []

unfoldable pub fw : {S : Type 0} → Con S EntryV1 (Answer EntryV1) → Operations S Entry
unfolding operations versioning fw_xpath
fw con =
    operations versioning con fw_xpath (called "bfd-profile") "Unsupported type to delete: %s" none

unfoldable pub pano_xpath : String → String → List String → List String
unfolding as_entry_xpath template_xpath_prefix
pano_xpath tmpl ts vals =
    template_xpath_prefix tmpl ts
    ++ "config"
      ∷ "devices"
      ∷ as_entry_xpath ("localhost.localdomain" ∷ [])
      ∷ "network"
      ∷ "profiles"
      ∷ "bfd-profile"
      ∷ as_entry_xpath vals
      ∷ []

unfoldable pub pano :
    {S : Type 0} → Con S EntryV1 (Answer EntryV1) → String → String → Operations S Entry
unfolding operations versioning pano_xpath
pano con tmpl ts =
    operations versioning con (pano_xpath tmpl ts) (called "bfd-profile")
      "Unsupported type to delete: %s" (needs_template tmpl ts)
