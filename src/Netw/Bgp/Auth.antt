-- ===== src/Netw/Bgp/Auth.antt =====
-- netw/routing/protocol/bgp/profile/auth/: the BGP auth profiles, with the struct of each version of PAN-OS and the
-- namespace of a firewall and that of a Panorama.
use pango.Base.{String, List, [], ◌∷◌, ◌++◌, ◌≡◌}
use pango.Util.Xpath.{as_entry_xpath, template_xpath_prefix}
use pango.Entries.{
  Kind, Con, Operations, Answer, operations, called, needs, needs_template, ◌or_else◌,
}

pub record Entry : Type 0 where
  pub name : String
  pub secret : String

-- `Entry{}`
abbrev pub no_entry : Entry
no_entry = record { name = ""; secret = "" }

-- `Copy`, of `s` to `o`; the name is kept.
unfoldable pub copy : Entry → Entry → Entry
copy o s = record o { secret = s.secret }

pub record EntryV1 : Type 0 where
  pub name : String
  pub secret : String

unfoldable pub specify_v1 : Entry → EntryV1
specify_v1 e = record { name = e.name; secret = e.secret }

unfoldable pub normalize_v1 : EntryV1 → Entry
normalize_v1 o = record { name = o.name; secret = o.secret }

abbrev pub no_entry_v1 : EntryV1
no_entry_v1 = record { name = ""; secret = "" }

-- `versioning`
unfoldable pub versioning : Kind Entry EntryV1 (Answer EntryV1)
unfolding specify_v1 normalize_v1
versioning = record {
  name_of = λ e. e.name;
  specify = specify_v1;
  normalize = λ o. normalize_v1 o.answer;
  no_entry = no_entry;
  no_answer = record { answer = no_entry_v1 };
}

unfoldable pub fw_xpath : String → List String → List String
unfolding as_entry_xpath
fw_xpath vr vals =
    "config"
    ∷ "devices"
    ∷ as_entry_xpath ("localhost.localdomain" ∷ [])
    ∷ "network"
    ∷ "virtual-router"
    ∷ as_entry_xpath (vr ∷ [])
    ∷ "protocol"
    ∷ "bgp"
    ∷ "auth-profile"
    ∷ as_entry_xpath vals
    ∷ []

unfoldable pub fw : {S : Type 0} → Con S EntryV1 (Answer EntryV1) → String → Operations S Entry
unfolding operations versioning fw_xpath
fw con vr =
    operations versioning con (fw_xpath vr) (called "auth-profile")
      "Unknown type sent to delete: %s" (needs "vr must be specified" vr)

unfoldable pub pano_xpath : String → String → String → List String → List String
unfolding as_entry_xpath template_xpath_prefix
pano_xpath tmpl ts vr vals =
    template_xpath_prefix tmpl ts
    ++ "config"
      ∷ "devices"
      ∷ as_entry_xpath ("localhost.localdomain" ∷ [])
      ∷ "network"
      ∷ "virtual-router"
      ∷ as_entry_xpath (vr ∷ [])
      ∷ "protocol"
      ∷ "bgp"
      ∷ "auth-profile"
      ∷ as_entry_xpath vals
      ∷ []

unfoldable pub pano :
    {S : Type 0} → Con S EntryV1 (Answer EntryV1) → String → String → String → Operations S Entry
unfolding operations versioning pano_xpath
pano con tmpl ts vr =
    operations versioning con (pano_xpath tmpl ts vr) (called "auth-profile")
      "Unknown type sent to delete: %s"
      (needs_template tmpl ts or_else needs "vr must be specified" vr)

pub normalize-specify_v1 : (e : Entry) → normalize_v1 (specify_v1 e) ≡ e
unfolding normalize_v1 specify_v1
normalize-specify_v1 e = λ i. record { name = e.name; secret = e.secret }
