-- ===== src/Netw/Gre.antt =====
-- netw/tunnel/gre/: the GRE tunnels, with the struct of each version of PAN-OS and the
-- namespace of a firewall and that of a Panorama.
use pango.Base.{
  ℤ, pos, int_eq, String, List, [], ◌∷◌, ◌++◌, Option, none, some, Bool, false, not, ◌||◌, ◌==◌,
  if◌then◌else◌,
}
use pango.Util.Flag.{yes_no, as_bool}
use pango.Util.Xpath.{as_entry_xpath, template_xpath_prefix}
use pango.Entries.{Kind, Con, Operations, Answer, operations, called_by_path, needs_template}

abbrev pub local_address_type_ip : String
local_address_type_ip = "ip"

abbrev pub local_address_type_floating_ip : String
local_address_type_floating_ip = "floating-ip"

pub record Entry : Type 0 where
  pub name : String
  pub interface : String
  pub local_address_type : String
  pub local_address_value : String
  pub peer_address : String
  pub tunnel_interface : String
  pub ttl : ℤ
  pub copy_tos : Bool
  pub enable_keep_alive : Bool
  pub keep_alive_interval : ℤ
  pub keep_alive_retry : ℤ
  pub keep_alive_hold_timer : ℤ
  pub disabled : Bool

-- `Entry{}`
abbrev pub no_entry : Entry
no_entry = record {
  name = "";
  interface = "";
  local_address_type = "";
  local_address_value = "";
  peer_address = "";
  tunnel_interface = "";
  ttl = pos 0;
  copy_tos = false;
  enable_keep_alive = false;
  keep_alive_interval = pos 0;
  keep_alive_retry = pos 0;
  keep_alive_hold_timer = pos 0;
  disabled = false;
}

-- `Copy`, of `s` to `o`; the name is kept.
unfoldable pub copy : Entry → Entry → Entry
copy o s = record o {
  interface = s.interface;
  local_address_type = s.local_address_type;
  local_address_value = s.local_address_value;
  peer_address = s.peer_address;
  tunnel_interface = s.tunnel_interface;
  ttl = s.ttl;
  copy_tos = s.copy_tos;
  enable_keep_alive = s.enable_keep_alive;
  keep_alive_interval = s.keep_alive_interval;
  keep_alive_retry = s.keep_alive_retry;
  keep_alive_hold_timer = s.keep_alive_hold_timer;
  disabled = s.disabled;
}

pub record LocalAddress : Type 0 where
  pub interface : String
  pub ip : String
  pub floating_ip : String

pub record PeerAddress : Type 0 where
  pub peer_address : String

pub record Ka : Type 0 where
  pub enable_keep_alive : String
  pub keep_alive_interval : ℤ
  pub keep_alive_retry : ℤ
  pub keep_alive_hold_timer : ℤ

pub record EntryV1 : Type 0 where
  pub name : String
  pub local : LocalAddress
  pub peer : PeerAddress
  pub tunnel_interface : String
  pub ttl : ℤ
  pub copy_tos : String
  pub keep_alive : Option Ka
  pub disabled : String

unfoldable pub specify_v1 : Entry → EntryV1
unfolding yes_no
specify_v1 e = record {
  name = e.name;
  local = record {
    interface = e.interface;
    ip = if e.local_address_type == local_address_type_ip then e.local_address_value else "";
    floating_ip =
        if e.local_address_type == local_address_type_ip
        then ""
        else if e.local_address_type == local_address_type_floating_ip
        then e.local_address_value
        else "";
  };
  peer = record { peer_address = e.peer_address };
  tunnel_interface = e.tunnel_interface;
  ttl = e.ttl;
  copy_tos = yes_no e.copy_tos;
  keep_alive =
      if e.enable_keep_alive
        || not (int_eq e.keep_alive_interval (pos 0))
        || not (int_eq e.keep_alive_retry (pos 0))
        || not (int_eq e.keep_alive_hold_timer (pos 0))
      then some (record {
        enable_keep_alive = yes_no e.enable_keep_alive;
        keep_alive_interval = e.keep_alive_interval;
        keep_alive_retry = e.keep_alive_retry;
        keep_alive_hold_timer = e.keep_alive_hold_timer;
      })
      else none;
  disabled = yes_no e.disabled;
}

unfoldable pub normalize_v1 : EntryV1 → Entry
unfolding as_bool
normalize_v1 o = record {
  name = o.name;
  interface = o.local.interface;
  local_address_type =
      if not (o.local.ip == "")
      then local_address_type_ip
      else if not (o.local.floating_ip == "")
      then local_address_type_floating_ip
      else "";
  local_address_value =
      if not (o.local.ip == "")
      then o.local.ip
      else if not (o.local.floating_ip == "")
      then o.local.floating_ip
      else "";
  peer_address = o.peer.peer_address;
  tunnel_interface = o.tunnel_interface;
  ttl = o.ttl;
  copy_tos = as_bool o.copy_tos;
  enable_keep_alive = elim o.keep_alive [
    | none ↦ false
    | some keep_alive ↦ as_bool keep_alive.enable_keep_alive
  ];
  keep_alive_interval = elim o.keep_alive [
    | none ↦ pos 0
    | some keep_alive ↦ keep_alive.keep_alive_interval
  ];
  keep_alive_retry = elim o.keep_alive [
    | none ↦ pos 0
    | some keep_alive ↦ keep_alive.keep_alive_retry
  ];
  keep_alive_hold_timer = elim o.keep_alive [
    | none ↦ pos 0
    | some keep_alive ↦ keep_alive.keep_alive_hold_timer
  ];
  disabled = as_bool o.disabled;
}

abbrev pub no_entry_v1 : EntryV1
no_entry_v1 = record {
  name = "";
  local = record { interface = ""; ip = ""; floating_ip = "" };
  peer = record { peer_address = "" };
  tunnel_interface = "";
  ttl = pos 0;
  copy_tos = "";
  keep_alive = none;
  disabled = "";
}

-- `versioning`
unfoldable pub versioning : Kind Entry EntryV1 (Answer EntryV1)
unfolding specify_v1 normalize_v1
versioning = record {
  name_of = λ e. e.name;
  specify = specify_v1;
  normalize = λ o. normalize_v1 o.answer;
  no_entry = no_entry;
  no_answer = record { answer = no_entry_v1 };
}

unfoldable pub fw_xpath : List String → List String
unfolding as_entry_xpath
fw_xpath vals =
    "config"
    ∷ "devices"
    ∷ as_entry_xpath ("localhost.localdomain" ∷ [])
    ∷ "network"
    ∷ "tunnel"
    ∷ "gre"
    ∷ as_entry_xpath vals
    ∷ []

unfoldable pub fw : {S : Type 0} → Con S EntryV1 (Answer EntryV1) → Operations S Entry
unfolding operations versioning fw_xpath
fw con = operations versioning con fw_xpath called_by_path "Unknown type sent to delete: %s" none

unfoldable pub pano_xpath : String → String → List String → List String
unfolding as_entry_xpath template_xpath_prefix
pano_xpath tmpl ts vals =
    template_xpath_prefix tmpl ts
    ++ "config"
      ∷ "devices"
      ∷ as_entry_xpath ("localhost.localdomain" ∷ [])
      ∷ "network"
      ∷ "tunnel"
      ∷ "gre"
      ∷ as_entry_xpath vals
      ∷ []

unfoldable pub pano :
    {S : Type 0} → Con S EntryV1 (Answer EntryV1) → String → String → Operations S Entry
unfolding operations versioning pano_xpath
pano con tmpl ts =
    operations versioning con (pano_xpath tmpl ts) called_by_path "Unknown type sent to delete: %s"
      (needs_template tmpl ts)
