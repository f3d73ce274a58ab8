-- ===== src/Dev/SyslogServer.antt =====
-- dev/profile/syslog/server/: the servers of a syslog profile, with the struct of each version of PAN-OS and the
-- namespace of a firewall and that of a Panorama.
use pango.Base.{ℤ, pos, String, List, [], ◌∷◌, ◌++◌, none, ◌≡◌}
use pango.Util.Xpath.{as_entry_xpath, vsys_xpath_prefix}
use pango.Entries.{
  Kind, Con, Operations, Answer, operations, called_by_path, needs, or_shared, profile_prefix,
}

pub record Entry : Type 0 where
  pub name : String
  pub server : String
  pub transport : String
  pub port : ℤ
  pub syslog_format : String
  pub facility : String

-- `Entry{}`
abbrev pub no_entry : Entry
no_entry = record {
  name = "";
  server = "";
  transport = "";
  port = pos 0;
  syslog_format = "";
  facility = "";
}

-- `Copy`, of `s` to `o`; the name is kept.
unfoldable pub copy : Entry → Entry → Entry
copy o s = record o {
  server = s.server;
  transport = s.transport;
  port = s.port;
  syslog_format = s.syslog_format;
  facility = s.facility;
}

pub record EntryV1 : Type 0 where
  pub name : String
  pub server : String
  pub transport : String
  pub port : ℤ
  pub syslog_format : String
  pub facility : String

unfoldable pub specify_v1 : Entry → EntryV1
specify_v1 e = record {
  name = e.name;
  server = e.server;
  transport = e.transport;
  port = e.port;
  syslog_format = e.syslog_format;
  facility = e.facility;
}

unfoldable pub normalize_v1 : EntryV1 → Entry
normalize_v1 o = record {
  name = o.name;
  server = o.server;
  transport = o.transport;
  port = o.port;
  syslog_format = o.syslog_format;
  facility = o.facility;
}

abbrev pub no_entry_v1 : EntryV1
no_entry_v1 = record {
  name = "";
  server = "";
  transport = "";
  port = pos 0;
  syslog_format = "";
  facility = "";
}

-- `versioning`
unfoldable pub versioning : Kind Entry EntryV1 (Answer EntryV1)
unfolding specify_v1 normalize_v1
versioning = record {
  name_of = λ e. e.name;
  specify = specify_v1;
  normalize = λ o. normalize_v1 o.answer;
  no_entry = no_entry;
  no_answer = record { answer = no_entry_v1 };
}

unfoldable pub fw_xpath : String → String → List String → List String
unfolding as_entry_xpath vsys_xpath_prefix
fw_xpath vsys profile vals =
    vsys_xpath_prefix (or_shared vsys)
    ++ "log-settings"
      ∷ "syslog"
      ∷ as_entry_xpath (profile ∷ [])
      ∷ "server"
      ∷ as_entry_xpath vals
      ∷ []

unfoldable pub fw :
    {S : Type 0} → Con S EntryV1 (Answer EntryV1) → String → String → Operations S Entry
unfolding operations versioning fw_xpath
fw con vsys profile =
    operations versioning con (fw_xpath vsys profile) called_by_path
      "Unknown type sent to delete: %s" (needs "profile must be specified" profile)

unfoldable pub pano_xpath : String → String → String → String → String → List String → List String
unfolding as_entry_xpath profile_prefix
pano_xpath tmpl ts vsys dg profile vals =
    profile_prefix tmpl ts vsys dg
    ++ "log-settings"
      ∷ "syslog"
      ∷ as_entry_xpath (profile ∷ [])
      ∷ "server"
      ∷ as_entry_xpath vals
      ∷ []

unfoldable pub pano :
    {S : Type 0}
    → Con S EntryV1 (Answer EntryV1)
    → String
    → String
    → String
    → String
    → String
    → Operations S Entry
unfolding operations versioning pano_xpath
pano con tmpl ts vsys dg profile =
    operations versioning con (pano_xpath tmpl ts vsys dg profile) called_by_path
      "Unknown type sent to delete: %s" none

pub normalize-specify_v1 : (e : Entry) → normalize_v1 (specify_v1 e) ≡ e
unfolding normalize_v1 specify_v1
normalize-specify_v1 e = λ i. record {
  name = e.name;
  server = e.server;
  transport = e.transport;
  port = e.port;
  syslog_format = e.syslog_format;
  facility = e.facility;
}
