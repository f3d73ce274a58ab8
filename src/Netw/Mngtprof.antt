-- ===== src/Netw/Mngtprof.antt =====
-- netw/profile/mngtprof/: the interface management profiles, with the struct of each version of PAN-OS and the
-- namespace of a firewall and that of a Panorama.
use pango.Base.{String, List, [], ◌∷◌, ◌++◌, Option, none, Bool, false, ◌≡◌}
use pango.Util.Flag.{yes_no, as_bool, as_bool-yes_no}
use pango.Util.Member.{EntryType, ent_to_str, str_to_ent, ent_to_str-str_to_ent}
use pango.Util.Xpath.{as_entry_xpath, template_xpath_prefix}
use pango.Entries.{Kind, Con, Operations, Answer, operations, called, needs_template}

pub record Entry : Type 0 where
  pub name : String
  pub ping : Bool
  pub telnet : Bool
  pub ssh : Bool
  pub http : Bool
  pub http_ocsp : Bool
  pub https : Bool
  pub snmp : Bool
  pub response_pages : Bool
  pub userid_service : Bool
  pub userid_syslog_listener_ssl : Bool
  pub userid_syslog_listener_udp : Bool
  pub permitted_ips : Option (List String)

-- `Entry{}`
abbrev pub no_entry : Entry
no_entry = record {
  name = "";
  ping = false;
  telnet = false;
  ssh = false;
  http = false;
  http_ocsp = false;
  https = false;
  snmp = false;
  response_pages = false;
  userid_service = false;
  userid_syslog_listener_ssl = false;
  userid_syslog_listener_udp = false;
  permitted_ips = none;
}

-- `Copy`, of `s` to `o`; the name is kept.
unfoldable pub copy : Entry → Entry → Entry
copy o s = record o {
  ping = s.ping;
  telnet = s.telnet;
  ssh = s.ssh;
  http = s.http;
  http_ocsp = s.http_ocsp;
  https = s.https;
  snmp = s.snmp;
  response_pages = s.response_pages;
  userid_service = s.userid_service;
  userid_syslog_listener_ssl = s.userid_syslog_listener_ssl;
  userid_syslog_listener_udp = s.userid_syslog_listener_udp;
  permitted_ips = s.permitted_ips;
}

pub record EntryV1 : Type 0 where
  pub name : String
  pub ping : String
  pub telnet : String
  pub ssh : String
  pub http : String
  pub http_ocsp : String
  pub https : String
  pub snmp : String
  pub response_pages : String
  pub userid_service : String
  pub userid_syslog_listener_ssl : String
  pub userid_syslog_listener_udp : String
  pub permitted_ips : Option EntryType

unfoldable pub specify_v1 : Entry → EntryV1
unfolding yes_no str_to_ent
specify_v1 e = record {
  name = e.name;
  ping = yes_no e.ping;
  telnet = yes_no e.telnet;
  ssh = yes_no e.ssh;
  http = yes_no e.http;
  http_ocsp = yes_no e.http_ocsp;
  https = yes_no e.https;
  snmp = yes_no e.snmp;
  response_pages = yes_no e.response_pages;
  userid_service = yes_no e.userid_service;
  userid_syslog_listener_ssl = yes_no e.userid_syslog_listener_ssl;
  userid_syslog_listener_udp = yes_no e.userid_syslog_listener_udp;
  permitted_ips = str_to_ent e.permitted_ips;
}

unfoldable pub normalize_v1 : EntryV1 → Entry
unfolding as_bool ent_to_str
normalize_v1 o = record {
  name = o.name;
  ping = as_bool o.ping;
  telnet = as_bool o.telnet;
  ssh = as_bool o.ssh;
  http = as_bool o.http;
  http_ocsp = as_bool o.http_ocsp;
  https = as_bool o.https;
  snmp = as_bool o.snmp;
  response_pages = as_bool o.response_pages;
  userid_service = as_bool o.userid_service;
  userid_syslog_listener_ssl = as_bool o.userid_syslog_listener_ssl;
  userid_syslog_listener_udp = as_bool o.userid_syslog_listener_udp;
  permitted_ips = ent_to_str o.permitted_ips;
}

abbrev pub no_entry_v1 : EntryV1
no_entry_v1 = record {
  name = "";
  ping = "";
  telnet = "";
  ssh = "";
  http = "";
  http_ocsp = "";
  https = "";
  snmp = "";
  response_pages = "";
  userid_service = "";
  userid_syslog_listener_ssl = "";
  userid_syslog_listener_udp = "";
  permitted_ips = none;
}

-- `versioning`
unfoldable pub versioning : Kind Entry EntryV1 (Answer EntryV1)
unfolding specify_v1 normalize_v1
versioning = record {
  name_of = λ e. e.name;
  specify = specify_v1;
  normalize = λ o. normalize_v1 o.answer;
  no_entry = no_entry;
  no_answer = record { answer = no_entry_v1 };
}

unfoldable pub fw_xpath : List String → List String
unfolding as_entry_xpath
fw_xpath vals =
    "config"
    ∷ "devices"
    ∷ as_entry_xpath ("localhost.localdomain" ∷ [])
    ∷ "network"
    ∷ "profiles"
    ∷ "interface-management-profile"
    ∷ as_entry_xpath vals
    ∷ []

unfoldable pub fw : {S : Type 0} → Con S EntryV1 (Answer EntryV1) → Operations S Entry
unfolding operations versioning fw_xpath
fw con =
    operations versioning con fw_xpath (called "interface-management-profile")
      "Unsupported type to delete: %s" none

unfoldable pub pano_xpath : String → String → List String → List String
unfolding as_entry_xpath template_xpath_prefix
pano_xpath tmpl ts vals =
    template_xpath_prefix tmpl ts
    ++ "config"
      ∷ "devices"
      ∷ as_entry_xpath ("localhost.localdomain" ∷ [])
      ∷ "network"
      ∷ "profiles"
      ∷ "interface-management-profile"
      ∷ as_entry_xpath vals
      ∷ []

unfoldable pub pano :
    {S : Type 0} → Con S EntryV1 (Answer EntryV1) → String → String → Operations S Entry
unfolding operations versioning pano_xpath
pano con tmpl ts =
    operations versioning con (pano_xpath tmpl ts) (called "interface-management-profile")
      "Unsupported type to delete: %s" (needs_template tmpl ts)

pub normalize-specify_v1 : (e : Entry) → normalize_v1 (specify_v1 e) ≡ e
unfolding normalize_v1 specify_v1
normalize-specify_v1 e = λ i. record {
  name = e.name;
  ping = as_bool-yes_no e.ping i;
  telnet = as_bool-yes_no e.telnet i;
  ssh = as_bool-yes_no e.ssh i;
  http = as_bool-yes_no e.http i;
  http_ocsp = as_bool-yes_no e.http_ocsp i;
  https = as_bool-yes_no e.https i;
  snmp = as_bool-yes_no e.snmp i;
  response_pages = as_bool-yes_no e.response_pages i;
  userid_service = as_bool-yes_no e.userid_service i;
  userid_syslog_listener_ssl = as_bool-yes_no e.userid_syslog_listener_ssl i;
  userid_syslog_listener_udp = as_bool-yes_no e.userid_syslog_listener_udp i;
  permitted_ips = ent_to_str-str_to_ent e.permitted_ips i;
}
