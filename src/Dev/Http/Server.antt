-- ===== src/Dev/Http/Server.antt =====
-- dev/profile/http/server/: the servers of an HTTP profile, with the struct of each version of PAN-OS and the
-- namespace of a firewall and that of a Panorama.
use pango.Base.{ℤ, pos, String, List, [], ◌∷◌, ◌++◌, if◌then◌else◌, ◌≡◌}
use pango.Util.Xpath.{as_entry_xpath, vsys_xpath_prefix}
use pango.Version.{Number, gte}
use pango.Entries.{
  Kind, Con, Operations, Answer, operations, called_by_path, needs, or_shared, profile_prefix,
}

pub record Entry : Type 0 where
  pub name : String
  pub address : String
  pub protocol : String
  pub port : ℤ
  pub http_method : String
  pub username : String
  pub password : String
  pub tls_version : String
  pub certificate_profile : String

-- `Entry{}`
abbrev pub no_entry : Entry
no_entry = record {
  name = "";
  address = "";
  protocol = "";
  port = pos 0;
  http_method = "";
  username = "";
  password = "";
  tls_version = "";
  certificate_profile = "";
}

-- `Copy`, of `s` to `o`; the name is kept.
unfoldable pub copy : Entry → Entry → Entry
copy o s = record o {
  address = s.address;
  protocol = s.protocol;
  port = s.port;
  http_method = s.http_method;
  username = s.username;
  password = s.password;
  tls_version = s.tls_version;
  certificate_profile = s.certificate_profile;
}

pub record EntryV1 : Type 0 where
  pub name : String
  pub address : String
  pub protocol : String
  pub port : ℤ
  pub http_method : String
  pub username : String
  pub password : String

pub record EntryV2 : Type 0 where
  pub name : String
  pub address : String
  pub protocol : String
  pub port : ℤ
  pub http_method : String
  pub username : String
  pub password : String
  pub tls_version : String
  pub certificate_profile : String

unfoldable pub specify_v1 : Entry → EntryV1
specify_v1 e = record {
  name = e.name;
  address = e.address;
  protocol = e.protocol;
  port = e.port;
  http_method = e.http_method;
  username = e.username;
  password = e.password;
}

unfoldable pub normalize_v1 : EntryV1 → Entry
normalize_v1 o = record {
  name = o.name;
  address = o.address;
  protocol = o.protocol;
  port = o.port;
  http_method = o.http_method;
  username = o.username;
  password = o.password;
  tls_version = "";
  certificate_profile = "";
}

unfoldable pub specify_v2 : Entry → EntryV2
specify_v2 e = record {
  name = e.name;
  address = e.address;
  protocol = e.protocol;
  port = e.port;
  http_method = e.http_method;
  username = e.username;
  password = e.password;
  tls_version = e.tls_version;
  certificate_profile = e.certificate_profile;
}

unfoldable pub normalize_v2 : EntryV2 → Entry
normalize_v2 o = record {
  name = o.name;
  address = o.address;
  protocol = o.protocol;
  port = o.port;
  http_method = o.http_method;
  username = o.username;
  password = o.password;
  tls_version = o.tls_version;
  certificate_profile = o.certificate_profile;
}

abbrev pub no_entry_v1 : EntryV1
no_entry_v1 = record {
  name = "";
  address = "";
  protocol = "";
  port = pos 0;
  http_method = "";
  username = "";
  password = "";
}

abbrev pub no_entry_v2 : EntryV2
no_entry_v2 = record {
  name = "";
  address = "";
  protocol = "";
  port = pos 0;
  http_method = "";
  username = "";
  password = "";
  tls_version = "";
  certificate_profile = "";
}

-- The struct of each version.
pub data Object : Type 0 where
  v1 : EntryV1 → Object
  v2 : EntryV2 → Object

abbrev pub since_v2 : Number
since_v2 = record { major = pos 9; minor = pos 0; patch = pos 0; suffix = "" }

unfoldable pub specify : Number → Entry → Object
unfolding gte specify_v1 specify_v2
specify version e = if gte version since_v2 then v2 (specify_v2 e) else v1 (specify_v1 e)

unfoldable pub normalize : Object → Entry
unfolding normalize_v1 normalize_v2
normalize (v1 o) = normalize_v1 o
normalize (v2 o) = normalize_v2 o

unfoldable pub no_object : Number → Object
unfolding gte
no_object version = if gte version since_v2 then v2 no_entry_v2 else v1 no_entry_v1

-- `versioning`
unfoldable pub versioning : Number → Kind Entry Object (Answer Object)
unfolding specify normalize no_object
versioning version = record {
  name_of = λ e. e.name;
  specify = specify version;
  normalize = λ o. normalize o.answer;
  no_entry = no_entry;
  no_answer = record { answer = no_object version };
}

unfoldable pub fw_xpath : String → String → List String → List String
unfolding as_entry_xpath vsys_xpath_prefix
fw_xpath vsys profile vals =
    vsys_xpath_prefix (or_shared vsys)
    ++ "log-settings" ∷ "http" ∷ as_entry_xpath (profile ∷ []) ∷ "server" ∷ as_entry_xpath vals ∷ []

unfoldable pub fw :
    {S : Type 0} → Number → Con S Object (Answer Object) → String → String → Operations S Entry
unfolding operations versioning fw_xpath
fw version con vsys profile =
    operations (versioning version) con (fw_xpath vsys profile) called_by_path
      "Unknown type sent to delete: %s" (needs "profile must be specified" profile)

unfoldable pub pano_xpath : String → String → String → String → String → List String → List String
unfolding as_entry_xpath profile_prefix
pano_xpath tmpl ts vsys dg profile vals =
    profile_prefix tmpl ts vsys dg
    ++ "log-settings" ∷ "http" ∷ as_entry_xpath (profile ∷ []) ∷ "server" ∷ as_entry_xpath vals ∷ []

unfoldable pub pano :
    {S : Type 0}
    → Number
    → Con S Object (Answer Object)
    → String
    → String
    → String
    → String
    → String
    → Operations S Entry
unfolding operations versioning pano_xpath
pano version con tmpl ts vsys dg profile =
    operations (versioning version) con (pano_xpath tmpl ts vsys dg profile) called_by_path
      "Unknown type sent to delete: %s" (needs "profile must be specified" profile)

pub normalize-specify_v2 : (e : Entry) → normalize_v2 (specify_v2 e) ≡ e
unfolding normalize_v2 specify_v2
normalize-specify_v2 e = λ i. record {
  name = e.name;
  address = e.address;
  protocol = e.protocol;
  port = e.port;
  http_method = e.http_method;
  username = e.username;
  password = e.password;
  tls_version = e.tls_version;
  certificate_profile = e.certificate_profile;
}
