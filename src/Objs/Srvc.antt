-- ===== src/Objs/Srvc.antt =====
-- objs/srvc/: the service objects, with the struct of each version of PAN-OS and the
-- namespace of a firewall and that of a Panorama.
pub mod RoundTrip
use pango.Base.{
  Error, ℤ, pos, String, List, [], ◌∷◌, ◌++◌, Option, none, some, Bool, true, false, ◌==◌,
  if◌then◌else◌, map,
}
use pango.Util.Member.{MemberType, mem_to_str, str_to_mem}
use pango.Util.Xpath.{as_entry_xpath, vsys_xpath_prefix, device_group_xpath_prefix}
use pango.Version.{Number, gte}
use pango.Entries.{Kind, Con, Operations, operations, called, first_entry, read_all}

abbrev pub protocol_tcp : String
protocol_tcp = "tcp"

abbrev pub protocol_udp : String
protocol_udp = "udp"

abbrev pub protocol_sctp : String
protocol_sctp = "sctp"

pub record Entry : Type 0 where
  pub name : String
  pub description : String
  pub protocol : String
  pub source_port : String
  pub destination_port : String
  pub tags : Option (List String)
  pub override_session_timeout : Bool
  pub override_timeout : ℤ
  pub override_half_closed_timeout : ℤ
  pub override_time_wait_timeout : ℤ

-- `Entry{}`
abbrev pub no_entry : Entry
no_entry = record {
  name = "";
  description = "";
  protocol = "";
  source_port = "";
  destination_port = "";
  tags = none;
  override_session_timeout = false;
  override_timeout = pos 0;
  override_half_closed_timeout = pos 0;
  override_time_wait_timeout = pos 0;
}

-- `Copy`, of `s` to `o`; the name is kept.
unfoldable pub copy : Entry → Entry → Entry
copy o s = record o {
  description = s.description;
  protocol = s.protocol;
  source_port = s.source_port;
  destination_port = s.destination_port;
  tags = s.tags;
  override_session_timeout = s.override_session_timeout;
  override_timeout = s.override_timeout;
  override_half_closed_timeout = s.override_half_closed_timeout;
  override_time_wait_timeout = s.override_time_wait_timeout;
}

pub record ProtoDef : Type 0 where
  pub source_port : String
  pub destination_port : String

pub record EntryV1 : Type 0 where
  pub name : String
  pub tcp_proto : Option ProtoDef
  pub udp_proto : Option ProtoDef
  pub description : String
  pub tags : Option MemberType

pub record YesTcpOverride : Type 0 where
  pub override_timeout : ℤ
  pub override_half_closed_timeout : ℤ
  pub override_time_wait_timeout : ℤ

pub record TcpOverride : Type 0 where
  pub no_ : Option String
  pub yes_ : Option YesTcpOverride

pub record TcpProto : Type 0 where
  pub source_port : String
  pub destination_port : String
  pub override : Option TcpOverride

pub record YesUdpOverride : Type 0 where
  pub override_timeout : ℤ

pub record UdpOverride : Type 0 where
  pub no_ : Option String
  pub yes_ : Option YesUdpOverride

pub record UdpProto : Type 0 where
  pub source_port : String
  pub destination_port : String
  pub override : Option UdpOverride

pub record EntryV2 : Type 0 where
  pub name : String
  pub tcp_proto : Option TcpProto
  pub udp_proto : Option UdpProto
  pub sctp_proto : Option ProtoDef
  pub description : String
  pub tags : Option MemberType

unfoldable pub specify_v1 : Entry → EntryV1
unfolding str_to_mem
specify_v1 e = record {
  name = e.name;
  tcp_proto =
      if e.protocol == protocol_tcp
      then some (record { source_port = e.source_port; destination_port = e.destination_port })
      else none;
  udp_proto =
      if e.protocol == protocol_tcp
      then none
      else if e.protocol == protocol_udp
      then some (record { source_port = e.source_port; destination_port = e.destination_port })
      else none;
  description = e.description;
  tags = str_to_mem e.tags;
}

unfoldable pub normalize_v1 : EntryV1 → Entry
unfolding mem_to_str
normalize_v1 o = record {
  name = o.name;
  description = o.description;
  protocol = elim o.tcp_proto [
    | none ↦ elim o.udp_proto [ none ↦ "" | some udp_proto ↦ protocol_udp ]
    | some tcp_proto ↦ protocol_tcp
  ];
  source_port = elim o.tcp_proto [
    | none ↦ elim o.udp_proto [ none ↦ "" | some udp_proto ↦ udp_proto.source_port ]
    | some tcp_proto ↦ tcp_proto.source_port
  ];
  destination_port = elim o.tcp_proto [
    | none ↦ elim o.udp_proto [ none ↦ "" | some udp_proto ↦ udp_proto.destination_port ]
    | some tcp_proto ↦ tcp_proto.destination_port
  ];
  tags = mem_to_str o.tags;
  override_session_timeout = false;
  override_timeout = pos 0;
  override_half_closed_timeout = pos 0;
  override_time_wait_timeout = pos 0;
}

unfoldable pub specify_v2 : Entry → EntryV2
unfolding str_to_mem
specify_v2 e = record {
  name = e.name;
  tcp_proto =
      if e.protocol == protocol_tcp
      then some (record {
        source_port = e.source_port;
        destination_port = e.destination_port;
        override =
            if e.override_session_timeout
            then some (record {
              no_ = none;
              yes_ = some (record {
                override_timeout = e.override_timeout;
                override_half_closed_timeout = e.override_half_closed_timeout;
                override_time_wait_timeout = e.override_time_wait_timeout;
              });
            })
            else none;
      })
      else none;
  udp_proto =
      if e.protocol == protocol_tcp
      then none
      else if e.protocol == protocol_udp
      then some (record {
        source_port = e.source_port;
        destination_port = e.destination_port;
        override =
            if e.override_session_timeout
            then some (record {
              no_ = none;
              yes_ = some (record { override_timeout = e.override_timeout });
            })
            else none;
      })
      else none;
  sctp_proto =
      if e.protocol == protocol_tcp
      then none
      else if e.protocol == protocol_udp
      then none
      else if e.protocol == protocol_sctp
      then some (record { source_port = e.source_port; destination_port = e.destination_port })
      else none;
  description = e.description;
  tags = str_to_mem e.tags;
}

unfoldable pub normalize_v2 : EntryV2 → Entry
unfolding mem_to_str
normalize_v2 o = record {
  name = o.name;
  description = o.description;
  protocol = elim o.tcp_proto [
    | none ↦ elim o.udp_proto [
      | none ↦ elim o.sctp_proto [ none ↦ "" | some sctp_proto ↦ protocol_sctp ]
      | some udp_proto ↦ protocol_udp
    ]
    | some tcp_proto ↦ protocol_tcp
  ];
  source_port = elim o.tcp_proto [
    | none ↦ elim o.udp_proto [
      | none ↦ elim o.sctp_proto [ none ↦ "" | some sctp_proto ↦ sctp_proto.source_port ]
      | some udp_proto ↦ udp_proto.source_port
    ]
    | some tcp_proto ↦ tcp_proto.source_port
  ];
  destination_port = elim o.tcp_proto [
    | none ↦ elim o.udp_proto [
      | none ↦ elim o.sctp_proto [ none ↦ "" | some sctp_proto ↦ sctp_proto.destination_port ]
      | some udp_proto ↦ udp_proto.destination_port
    ]
    | some tcp_proto ↦ tcp_proto.destination_port
  ];
  tags = mem_to_str o.tags;
  override_session_timeout = elim o.tcp_proto [
    | none ↦ elim o.udp_proto [
      | none ↦ false
      | some udp_proto ↦ elim udp_proto.override [
        | none ↦ false
        | some override ↦ elim override.yes_ [ none ↦ false | some yes_ ↦ true ]
      ]
    ]
    | some tcp_proto ↦ elim tcp_proto.override [
      | none ↦ false
      | some override ↦ elim override.yes_ [ none ↦ false | some yes_ ↦ true ]
    ]
  ];
  override_timeout = elim o.tcp_proto [
    | none ↦ elim o.udp_proto [
      | none ↦ pos 0
      | some udp_proto ↦ elim udp_proto.override [
        | none ↦ pos 0
        | some override ↦ elim override.yes_ [ none ↦ pos 0 | some yes_ ↦ yes_.override_timeout ]
      ]
    ]
    | some tcp_proto ↦ elim tcp_proto.override [
      | none ↦ pos 0
      | some override ↦ elim override.yes_ [ none ↦ pos 0 | some yes_ ↦ yes_.override_timeout ]
    ]
  ];
  override_half_closed_timeout = elim o.tcp_proto [
    | none ↦ pos 0
    | some tcp_proto ↦ elim tcp_proto.override [
      | none ↦ pos 0
      | some override ↦ elim override.yes_ [
        | none ↦ pos 0
        | some yes_ ↦ yes_.override_half_closed_timeout
      ]
    ]
  ];
  override_time_wait_timeout = elim o.tcp_proto [
    | none ↦ pos 0
    | some tcp_proto ↦ elim tcp_proto.override [
      | none ↦ pos 0
      | some override ↦ elim override.yes_ [
        | none ↦ pos 0
        | some yes_ ↦ yes_.override_time_wait_timeout
      ]
    ]
  ];
}

-- The struct of each version.
pub data Object : Type 0 where
  v1 : EntryV1 → Object
  v2 : EntryV2 → Object

abbrev pub since_v2 : Number
since_v2 = record { major = pos 8; minor = pos 1; patch = pos 0; suffix = "" }

unfoldable pub specify : Number → Entry → Object
unfolding gte specify_v1 specify_v2
specify version e = if gte version since_v2 then v2 (specify_v2 e) else v1 (specify_v1 e)

unfoldable pub normalize : Object → Entry
unfolding normalize_v1 normalize_v2
normalize (v1 o) = normalize_v1 o
normalize (v2 o) = normalize_v2 o

-- The container of each version.
pub data Container : Type 0 where
  all_v1 : List EntryV1 → Container
  all_v2 : List EntryV2 → Container

unfoldable pub normalize_all : Container → List Entry
unfolding normalize_v1 normalize_v2
normalize_all (all_v1 os) = map normalize_v1 os
normalize_all (all_v2 os) = map normalize_v2 os

unfoldable pub no_container : Number → Container
unfolding gte
no_container version = if gte version since_v2 then all_v2 [] else all_v1 []

-- `versioning`
unfoldable pub versioning : Number → Kind Entry Object Container
unfolding specify normalize_all no_container first_entry
versioning version = record {
  name_of = λ e. e.name;
  specify = specify version;
  normalize = λ o. first_entry no_entry (normalize_all o);
  no_entry = no_entry;
  no_answer = no_container version;
}

unfoldable pub fw_xpath : String → List String → List String
unfolding as_entry_xpath vsys_xpath_prefix
fw_xpath vsys vals = vsys_xpath_prefix vsys ++ "service" ∷ as_entry_xpath vals ∷ []

unfoldable pub fw : {S : Type 0} → Number → Con S Object Container → String → Operations S Entry
unfolding operations versioning fw_xpath
fw version con vsys =
    operations (versioning version) con (fw_xpath vsys) (called "service")
      "Unsupported type to delete: %s" none

-- `GetAll`
unfoldable pub fw_get_all :
    {S : Type 0}
    → Number
    → Con S Object Container
    → String
    → S
    → (Option Error × Option (List Entry)) × S
unfolding read_all versioning normalize_all fw_xpath
fw_get_all version con vsys s =
    read_all (versioning version) con (fw_xpath vsys) normalize_all con.get s

-- `ShowAll`
unfoldable pub fw_show_all :
    {S : Type 0}
    → Number
    → Con S Object Container
    → String
    → S
    → (Option Error × Option (List Entry)) × S
unfolding read_all versioning normalize_all fw_xpath
fw_show_all version con vsys s =
    read_all (versioning version) con (fw_xpath vsys) normalize_all con.show s

unfoldable pub pano_xpath : String → List String → List String
unfolding as_entry_xpath device_group_xpath_prefix
pano_xpath dg vals = device_group_xpath_prefix dg ++ "service" ∷ as_entry_xpath vals ∷ []

unfoldable pub pano : {S : Type 0} → Number → Con S Object Container → String → Operations S Entry
unfolding operations versioning pano_xpath
pano version con dg =
    let all =
      operations (versioning version) con (pano_xpath dg) (called "service")
        "Unsupported type to delete: %s" none in
    record all { show = all.get }

-- `GetAll`
unfoldable pub pano_get_all :
    {S : Type 0}
    → Number
    → Con S Object Container
    → String
    → S
    → (Option Error × Option (List Entry)) × S
unfolding read_all versioning normalize_all pano_xpath
pano_get_all version con dg s =
    read_all (versioning version) con (pano_xpath dg) normalize_all con.get s

-- `ShowAll`
unfoldable pub pano_show_all :
    {S : Type 0}
    → Number
    → Con S Object Container
    → String
    → S
    → (Option Error × Option (List Entry)) × S
unfolding read_all versioning normalize_all pano_xpath
pano_show_all version con dg s =
    read_all (versioning version) con (pano_xpath dg) normalize_all con.show s
