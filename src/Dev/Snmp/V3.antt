-- ===== src/Dev/Snmp/V3.antt =====
-- dev/profile/snmp/v3/: the SNMP v3 servers of an SNMP profile, with the struct of each version of PAN-OS and the
-- namespace of a firewall and that of a Panorama.
use pango.Base.{String, List, [], ◌∷◌, ◌++◌, ◌≡◌}
use pango.Util.Xpath.{as_entry_xpath, vsys_xpath_prefix}
use pango.Entries.{
  Kind, Con, Operations, Answer, operations, called_by_path, needs, or_shared, profile_prefix,
}

pub record Entry : Type 0 where
  pub name : String
  pub manager : String
  pub user : String
  pub engine_id : String
  pub auth_password : String
  pub priv_password : String

-- `Entry{}`
abbrev pub no_entry : Entry
no_entry = record {
  name = "";
  manager = "";
  user = "";
  engine_id = "";
  auth_password = "";
  priv_password = "";
}

-- `Copy`, of `s` to `o`; the name is kept.
unfoldable pub copy : Entry → Entry → Entry
copy o s = record o {
  manager = s.manager;
  user = s.user;
  engine_id = s.engine_id;
  auth_password = s.auth_password;
  priv_password = s.priv_password;
}

pub record EntryV1 : Type 0 where
  pub name : String
  pub manager : String
  pub user : String
  pub engine_id : String
  pub auth_password : String
  pub priv_password : String

unfoldable pub specify_v1 : Entry → EntryV1
specify_v1 e = record {
  name = e.name;
  manager = e.manager;
  user = e.user;
  engine_id = e.engine_id;
  auth_password = e.auth_password;
  priv_password = e.priv_password;
}

unfoldable pub normalize_v1 : EntryV1 → Entry
normalize_v1 o = record {
  name = o.name;
  manager = o.manager;
  user = o.user;
  engine_id = o.engine_id;
  auth_password = o.auth_password;
  priv_password = o.priv_password;
}

abbrev pub no_entry_v1 : EntryV1
no_entry_v1 = record {
  name = "";
  manager = "";
  user = "";
  engine_id = "";
  auth_password = "";
  priv_password = "";
}

-- `versioning`
unfoldable pub versioning : Kind Entry EntryV1 (Answer EntryV1)
unfolding specify_v1 normalize_v1
versioning = record {
  name_of = λ e. e.name;
  specify = specify_v1;
  normalize = λ o. normalize_v1 o.answer;
  no_entry = no_entry;
  no_answer = record { answer = no_entry_v1 };
}

unfoldable pub fw_xpath : String → String → List String → List String
unfolding as_entry_xpath vsys_xpath_prefix
fw_xpath vsys profile vals =
    vsys_xpath_prefix (or_shared vsys)
    ++ "log-settings"
      ∷ "snmptrap"
      ∷ as_entry_xpath (profile ∷ [])
      ∷ "version"
      ∷ "v3"
      ∷ "server"
      ∷ as_entry_xpath vals
      ∷ []

unfoldable pub fw :
    {S : Type 0} → Con S EntryV1 (Answer EntryV1) → String → String → Operations S Entry
unfolding operations versioning fw_xpath
fw con vsys profile =
    operations versioning con (fw_xpath vsys profile) called_by_path
      "Unknown type sent to delete: %s" (needs "profile must be specified" profile)

unfoldable pub pano_xpath : String → String → String → String → String → List String → List String
unfolding as_entry_xpath profile_prefix
pano_xpath tmpl ts vsys dg profile vals =
    profile_prefix tmpl ts vsys dg
    ++ "log-settings"
      ∷ "snmptrap"
      ∷ as_entry_xpath (profile ∷ [])
      ∷ "version"
      ∷ "v3"
      ∷ "server"
      ∷ as_entry_xpath vals
      ∷ []

unfoldable pub pano :
    {S : Type 0}
    → Con S EntryV1 (Answer EntryV1)
    → String
    → String
    → String
    → String
    → String
    → Operations S Entry
unfolding operations versioning pano_xpath
pano con tmpl ts vsys dg profile =
    operations versioning con (pano_xpath tmpl ts vsys dg profile) called_by_path
      "Unknown type sent to delete: %s" (needs "profile must be specified" profile)

pub normalize-specify_v1 : (e : Entry) → normalize_v1 (specify_v1 e) ≡ e
unfolding normalize_v1 specify_v1
normalize-specify_v1 e = λ i. record {
  name = e.name;
  manager = e.manager;
  user = e.user;
  engine_id = e.engine_id;
  auth_password = e.auth_password;
  priv_password = e.priv_password;
}
