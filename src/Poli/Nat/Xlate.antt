-- ===== src/Poli/Nat/Xlate.antt =====
-- The translations of poli/nat/entry.go: the structs of the source and of the destination, and both
-- directions between them and the parameters of a rule, whose prefixes Sat and Dat are left out here.
-- The code is in the functions of both versions alike.
use pango.Base.{
  String, List, Bool, false, not, ◌&&◌, ◌||◌, Option, none, some, ℤ, pos, int_eq, ◌==◌,
  if◌then◌else◌,
}
use pango.Util.Flag.{yes_no, as_bool}
use pango.Util.Member.{MemberType, mem_to_str, str_to_mem}
use pango.Poli.Nat.{
  dynamic_ip_and_port, dynamic_ip, static_ip, interface_address, translated_address, none_type,
  ip_type, floating_ip, dat_type_static, dat_type_dynamic,
}

pub record SrcXlateDiapIa : Type 0 where
  pub interface : String
  pub ip : String

pub record SrcXlateDiap : Type 0 where
  pub translated_address : Option MemberType
  pub interface_address : Option SrcXlateDiapIa

pub record FallbackIface : Type 0 where
  pub ip : String
  pub interface : String
  pub floating_ip : String

pub record Fallback : Type 0 where
  pub translated_address : Option MemberType
  pub interface_address : Option FallbackIface

pub record SrcXlateDi : Type 0 where
  pub translated_address : Option MemberType
  pub fallback : Option Fallback

pub record SrcXlateStatic : Type 0 where
  pub address : String
  pub bi_directional : String

pub record SrcXlate : Type 0 where
  pub diap : Option SrcXlateDiap
  pub di : Option SrcXlateDi
  pub static : Option SrcXlateStatic

pub record DstXlate : Type 0 where
  pub address : String
  pub port : ℤ
  pub distribution : String

-- The parameters of an `Entry` with the prefix Sat.
pub record Sat : Type 0 where
  pub type : String
  pub address_type : String
  pub translated_addresses : Option (List String)
  pub interface : String
  pub ip_address : String
  pub fallback_type : String
  pub fallback_translated_addresses : Option (List String)
  pub fallback_interface : String
  pub fallback_ip_type : String
  pub fallback_ip_address : String
  pub static_translated_address : String
  pub static_bi_directional : Bool

-- Those with the prefix Dat.
pub record Dat : Type 0 where
  pub type : String
  pub address : String
  pub port : ℤ
  pub dynamic_distribution : String

abbrev pub no_sat : Sat
no_sat = record {
  type = "";
  address_type = "";
  translated_addresses = none;
  interface = "";
  ip_address = "";
  fallback_type = "";
  fallback_translated_addresses = none;
  fallback_interface = "";
  fallback_ip_type = "";
  fallback_ip_address = "";
  static_translated_address = "";
  static_bi_directional = false;
}

abbrev pub no_dat : Dat
no_dat = record { type = ""; address = ""; port = pos 0; dynamic_distribution = "" }

-- The case of `Diap` of `normalize`.
abbrev read_diap : Option MemberType → Option SrcXlateDiapIa → Sat
read_diap addresses (some ia) = record no_sat {
  type = dynamic_ip_and_port;
  address_type = interface_address;
  interface = ia.interface;
  ip_address = ia.ip;
}
read_diap addresses none = record no_sat {
  type = dynamic_ip_and_port;
  address_type = translated_address;
  translated_addresses = mem_to_str addresses;
}

-- The texts of the interface of a fallback: the IP address goes before the floating one.
abbrev read_iface : Sat → FallbackIface → Sat
read_iface p i =
    let q = record p { fallback_type = interface_address; fallback_interface = i.interface } in
    if not (i.ip == "")
    then record q { fallback_ip_type = ip_type; fallback_ip_address = i.ip }
    else if not (i.floating_ip == "")
    then record q { fallback_ip_type = floating_ip; fallback_ip_address = i.floating_ip }
    else q

abbrev read_found : Sat → Option MemberType → Option FallbackIface → Sat
read_found p (some m) iface = record p {
  fallback_type = translated_address;
  fallback_translated_addresses = mem_to_str (some m);
}
read_found p none (some i) = read_iface p i
read_found p none none = p

abbrev read_fallback : Sat → Option Fallback → Sat
read_fallback p none = record p { fallback_type = none_type }
read_fallback p (some f) = read_found p f.translated_address f.interface_address

abbrev read_static : Option SrcXlateStatic → Sat
read_static none = no_sat
read_static (some s) = record no_sat {
  type = static_ip;
  static_translated_address = s.address;
  static_bi_directional = as_bool s.bi_directional;
}

abbrev read_di : Option SrcXlateDi → Option SrcXlateStatic → Sat
read_di (some d) static =
    read_fallback
      (record no_sat { type = dynamic_ip; translated_addresses = mem_to_str d.translated_address })
      d.fallback
read_di none static = read_static static

abbrev read_src : Option SrcXlateDiap → Option SrcXlateDi → Option SrcXlateStatic → Sat
read_src (some d) di static = read_diap d.translated_address d.interface_address
read_src none di static = read_di di static

-- The source translation of `normalize`.
unfoldable pub read_sat : Option SrcXlate → Sat
unfolding mem_to_str as_bool
read_sat none = record no_sat { type = none_type }
read_sat (some x) = read_src x.diap x.di x.static

abbrev read_dat : Option DstXlate → Dat
read_dat none = no_dat
read_dat (some x) = record no_dat { type = dat_type_static; address = x.address; port = x.port }

-- The destination translations of `normalize`; the first version has no dynamic one.
unfoldable pub read_dats : Option DstXlate → Option DstXlate → Dat
read_dats dat none = read_dat dat
read_dats dat (some x) = record {
  type = dat_type_dynamic;
  address = x.address;
  port = x.port;
  dynamic_distribution = x.distribution;
}

abbrev diap_of : Sat → SrcXlateDiap
diap_of e = record {
  translated_address =
      if e.address_type == translated_address then str_to_mem e.translated_addresses else none;
  interface_address =
      if e.address_type == interface_address
      then some (record { interface = e.interface; ip = e.ip_address })
      else none;
}

abbrev iface_of : Sat → FallbackIface
iface_of e = record {
  ip = if e.fallback_ip_type == ip_type then e.fallback_ip_address else "";
  interface = e.fallback_interface;
  floating_ip = if e.fallback_ip_type == floating_ip then e.fallback_ip_address else "";
}

abbrev fallback_of : Sat → Option Fallback
fallback_of e =
    if e.fallback_type == interface_address
    then some (record { translated_address = none; interface_address = some (iface_of e) })
    else if e.fallback_type == translated_address
    then some (record {
      translated_address = str_to_mem e.fallback_translated_addresses;
      interface_address = none;
    })
    else none

abbrev di_of : Sat → SrcXlateDi
di_of e = record {
  translated_address = str_to_mem e.translated_addresses;
  fallback = fallback_of e;
}

abbrev static_of : Sat → SrcXlateStatic
static_of e = record {
  address = e.static_translated_address;
  bi_directional = yes_no e.static_bi_directional;
}

-- The source translation of `specify_v1` and `specify_v2`.
unfoldable pub write_sat : Sat → Option SrcXlate
unfolding str_to_mem yes_no
write_sat e =
    if e.type == dynamic_ip_and_port
    then some (record { diap = some (diap_of e); di = none; static = none })
    else if e.type == dynamic_ip
    then some (record { diap = none; di = some (di_of e); static = none })
    else if e.type == static_ip
    then some (record { diap = none; di = none; static = some (static_of e) })
    else none

-- The destination translation that is static.
unfoldable pub write_static : Dat → Option DstXlate
write_static e =
    if e.type == dat_type_static && (not (e.address == "") || not (int_eq e.port (pos 0)))
    then some (record { address = e.address; port = e.port; distribution = "" })
    else none

-- The dynamic one, of `specify_v2`.
unfoldable pub write_dynamic : Dat → Option DstXlate
write_dynamic e =
    if not (e.type == dat_type_static)
      && (e.type == dat_type_dynamic
          && (not (e.address == "")
              || not (int_eq e.port (pos 0))
              || not (e.dynamic_distribution == "")))
    then some (record { address = e.address; port = e.port; distribution = e.dynamic_distribution })
    else none
