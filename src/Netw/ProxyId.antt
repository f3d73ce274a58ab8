-- ===== src/Netw/ProxyId.antt =====
-- netw/ipsectunnel/proxyid/ipv4/: the proxy ids of an IPsec tunnel, with the struct of each version of PAN-OS and the
-- namespace of a firewall and that of a Panorama.
use pango.Base.{
  ℤ, pos, int_eq, String, List, [], ◌∷◌, ◌++◌, Option, none, some, Bool, true, false, not, ◌||◌,
  if◌then◌else◌,
}
use pango.Util.Xpath.{as_entry_xpath, template_xpath_prefix}
use pango.Entries.{
  Kind, Con, Operations, Answer, operations, called, needs, needs_template, ◌or_else◌,
}

pub record Entry : Type 0 where
  pub name : String
  pub local : String
  pub remote : String
  pub protocol_any : Bool
  pub protocol_number : ℤ
  pub protocol_tcp_local : ℤ
  pub protocol_tcp_remote : ℤ
  pub protocol_udp_local : ℤ
  pub protocol_udp_remote : ℤ

-- `Entry{}`
abbrev pub no_entry : Entry
no_entry = record {
  name = "";
  local = "";
  remote = "";
  protocol_any = false;
  protocol_number = pos 0;
  protocol_tcp_local = pos 0;
  protocol_tcp_remote = pos 0;
  protocol_udp_local = pos 0;
  protocol_udp_remote = pos 0;
}

-- `Copy`, of `s` to `o`; the name is kept.
unfoldable pub copy : Entry → Entry → Entry
copy o s = record o {
  local = s.local;
  remote = s.remote;
  protocol_any = s.protocol_any;
  protocol_number = s.protocol_number;
  protocol_tcp_local = s.protocol_tcp_local;
  protocol_tcp_remote = s.protocol_tcp_remote;
  protocol_udp_local = s.protocol_udp_local;
  protocol_udp_remote = s.protocol_udp_remote;
}

pub record SubProto : Type 0 where
  pub local : ℤ
  pub remote : ℤ

pub record Proto : Type 0 where
  pub any : Option String
  pub number : ℤ
  pub tcp : Option SubProto
  pub udp : Option SubProto

pub record EntryV1 : Type 0 where
  pub name : String
  pub local : String
  pub remote : String
  pub protocol : Option Proto

unfoldable pub specify_v1 : Entry → EntryV1
specify_v1 e = record {
  name = e.name;
  local = e.local;
  remote = e.remote;
  protocol =
      if e.protocol_any
      then some (record { any = some ""; number = pos 0; tcp = none; udp = none })
      else if not (int_eq e.protocol_number (pos 0))
      then some (record { any = none; number = e.protocol_number; tcp = none; udp = none })
      else if not (int_eq e.protocol_tcp_local (pos 0))
          || not (int_eq e.protocol_tcp_remote (pos 0))
      then some (record {
        any = none;
        number = pos 0;
        tcp = some (record { local = e.protocol_tcp_local; remote = e.protocol_tcp_remote });
        udp = none;
      })
      else if not (int_eq e.protocol_udp_local (pos 0))
          || not (int_eq e.protocol_udp_remote (pos 0))
      then some (record {
        any = none;
        number = pos 0;
        tcp = none;
        udp = some (record { local = e.protocol_udp_local; remote = e.protocol_udp_remote });
      })
      else none;
}

unfoldable pub normalize_v1 : EntryV1 → Entry
normalize_v1 o = record {
  name = o.name;
  local = o.local;
  remote = o.remote;
  protocol_any = elim o.protocol [
    | none ↦ false
    | some protocol ↦ elim protocol.any [ none ↦ false | some any ↦ true ]
  ];
  protocol_number = elim o.protocol [
    | none ↦ pos 0
    | some protocol ↦ elim protocol.any [
      | none ↦ if not (int_eq protocol.number (pos 0)) then protocol.number else pos 0
      | some any ↦ pos 0
    ]
  ];
  protocol_tcp_local = elim o.protocol [
    | none ↦ pos 0
    | some protocol ↦ elim protocol.any [
      | none ↦
          if not (int_eq protocol.number (pos 0))
          then pos 0
          else elim protocol.tcp [ none ↦ pos 0 | some tcp ↦ tcp.local ]
      | some any ↦ pos 0
    ]
  ];
  protocol_tcp_remote = elim o.protocol [
    | none ↦ pos 0
    | some protocol ↦ elim protocol.any [
      | none ↦
          if not (int_eq protocol.number (pos 0))
          then pos 0
          else elim protocol.tcp [ none ↦ pos 0 | some tcp ↦ tcp.remote ]
      | some any ↦ pos 0
    ]
  ];
  protocol_udp_local = elim o.protocol [
    | none ↦ pos 0
    | some protocol ↦ elim protocol.any [
      | none ↦ if not (int_eq protocol.number (pos 0)) then pos 0 else elim protocol.tcp [
        | none ↦ elim protocol.udp [ none ↦ pos 0 | some udp ↦ udp.local ]
        | some tcp ↦ pos 0
      ]
      | some any ↦ pos 0
    ]
  ];
  protocol_udp_remote = elim o.protocol [
    | none ↦ pos 0
    | some protocol ↦ elim protocol.any [
      | none ↦ if not (int_eq protocol.number (pos 0)) then pos 0 else elim protocol.tcp [
        | none ↦ elim protocol.udp [ none ↦ pos 0 | some udp ↦ udp.remote ]
        | some tcp ↦ pos 0
      ]
      | some any ↦ pos 0
    ]
  ];
}

abbrev pub no_entry_v1 : EntryV1
no_entry_v1 = record { name = ""; local = ""; remote = ""; protocol = none }

-- `versioning`
unfoldable pub versioning : Kind Entry EntryV1 (Answer EntryV1)
unfolding specify_v1 normalize_v1
versioning = record {
  name_of = λ e. e.name;
  specify = specify_v1;
  normalize = λ o. normalize_v1 o.answer;
  no_entry = no_entry;
  no_answer = record { answer = no_entry_v1 };
}

unfoldable pub fw_xpath : String → List String → List String
unfolding as_entry_xpath
fw_xpath tun vals =
    "config"
    ∷ "devices"
    ∷ as_entry_xpath ("localhost.localdomain" ∷ [])
    ∷ "network"
    ∷ "tunnel"
    ∷ "ipsec"
    ∷ as_entry_xpath (tun ∷ [])
    ∷ "auto-key"
    ∷ "proxy-id"
    ∷ as_entry_xpath vals
    ∷ []

unfoldable pub fw : {S : Type 0} → Con S EntryV1 (Answer EntryV1) → String → Operations S Entry
unfolding operations versioning fw_xpath
fw con tun =
    operations versioning con (fw_xpath tun) (called "proxy-id") "Unsupported type to delete: %s"
      (needs "tun must be specified" tun)

unfoldable pub pano_xpath : String → String → String → List String → List String
unfolding as_entry_xpath template_xpath_prefix
pano_xpath tmpl ts tun vals =
    template_xpath_prefix tmpl ts
    ++ "config"
      ∷ "devices"
      ∷ as_entry_xpath ("localhost.localdomain" ∷ [])
      ∷ "network"
      ∷ "tunnel"
      ∷ "ipsec"
      ∷ as_entry_xpath (tun ∷ [])
      ∷ "auto-key"
      ∷ "proxy-id"
      ∷ as_entry_xpath vals
      ∷ []

unfoldable pub pano :
    {S : Type 0} → Con S EntryV1 (Answer EntryV1) → String → String → String → Operations S Entry
unfolding operations versioning pano_xpath
pano con tmpl ts tun =
    operations versioning con (pano_xpath tmpl ts tun) (called "proxy-id")
      "Unsupported type to delete: %s"
      (needs_template tmpl ts or_else needs "tun must be specified" tun)
