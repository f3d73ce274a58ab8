-- ===== src/Poli/Nat/Translation.antt =====
-- The translations that a NAT rule can say, and that they survive the XML structs: those that its
-- documentation lists, and a dynamic destination translation by its distribution alone.
use pango.Base.{
  String, List, Bool, true, false, ◌&&◌, Option, none, some, ℤ, pos, int_eq, ◌≡◌, refl, ◌==◌, arith,
}
use pango.Util.Flag.{as_bool-yes_no}
use pango.Util.Member.{mem_to_str-str_to_mem}
use pango.Version.{Number, gte}
use pango.Poli.Nat.{
  dynamic_ip_and_port, dynamic_ip, static_ip, interface_address, translated_address, none_type,
  ip_type, floating_ip, dat_type_static, dat_type_dynamic,
}
use pango.Poli.Nat.Xlate.{
  Sat, Dat, no_sat, no_dat, read_sat, read_dats, write_sat, write_static, write_dynamic,
}
use pango.Poli.Nat.Xml.{dynamic_since}

-- What a dynamic source address falls back on.
pub data FallbackTo : Type 0 where
  nothing : FallbackTo
  interface : String → FallbackTo
  interface_ip interface_floating : String → String → FallbackTo
  addresses : List String → FallbackTo

pub data Translation : Type 0 where
  untranslated : Translation
  port_of_addresses : Option (List String) → Translation
  port_of_interface : String → String → Translation
  dynamic : Option (List String) → FallbackTo → Translation
  static : String → Bool → Translation

abbrev with_fallback : FallbackTo → Sat → Sat
with_fallback nothing p = record p { fallback_type = none_type }
with_fallback (interface i) p = record p {
  fallback_type = interface_address;
  fallback_interface = i;
}
with_fallback (interface_ip i ip) p = record p {
  fallback_type = interface_address;
  fallback_interface = i;
  fallback_ip_type = ip_type;
  fallback_ip_address = ip;
}
with_fallback (interface_floating i ip) p = record p {
  fallback_type = interface_address;
  fallback_interface = i;
  fallback_ip_type = floating_ip;
  fallback_ip_address = ip;
}
with_fallback (addresses l) p = record p {
  fallback_type = translated_address;
  fallback_translated_addresses = some l;
}

-- The parameters that are linked for a translation; all others are empty.
abbrev pub linked : Translation → Sat
linked untranslated = record no_sat { type = none_type }
linked (port_of_addresses l) = record no_sat {
  type = dynamic_ip_and_port;
  address_type = translated_address;
  translated_addresses = l;
}
linked (port_of_interface i ip) = record no_sat {
  type = dynamic_ip_and_port;
  address_type = interface_address;
  interface = i;
  ip_address = ip;
}
linked (dynamic l f) =
    with_fallback f (record no_sat { type = dynamic_ip; translated_addresses = l })
linked (static address both) = record no_sat {
  type = static_ip;
  static_translated_address = address;
  static_bi_directional = both;
}

-- The address of a fallback that has a type is not empty.
abbrev pub HasAddress : Translation → Type 0
HasAddress (dynamic l (interface_ip i ip)) = (ip == "") ≡ false
HasAddress (dynamic l (interface_floating i ip)) = (ip == "") ≡ false
HasAddress _ = Unit

pub read_sat-write_sat :
    (t : Translation) → HasAddress t → read_sat (write_sat (linked t)) ≡ linked t
unfolding read_sat write_sat
read_sat-write_sat untranslated h = refl
read_sat-write_sat (port_of_addresses l) h =
    λ i. record (linked (port_of_addresses l)) { translated_addresses = mem_to_str-str_to_mem l i }
read_sat-write_sat (port_of_interface i ip) h = refl
read_sat-write_sat (dynamic l nothing) h =
    λ i. record (linked (dynamic l nothing)) { translated_addresses = mem_to_str-str_to_mem l i }
read_sat-write_sat (dynamic l (interface x)) h = λ i. record (linked (dynamic l (interface x))) {
  translated_addresses = mem_to_str-str_to_mem l i;
}
read_sat-write_sat (dynamic l (interface_ip x ip)) h = rw h (λ i.
    record (linked (dynamic l (interface_ip x ip))) {
      translated_addresses = mem_to_str-str_to_mem l i;
    })
read_sat-write_sat (dynamic l (interface_floating x ip)) h = rw h (λ i.
    record (linked (dynamic l (interface_floating x ip))) {
      translated_addresses = mem_to_str-str_to_mem l i;
    })
read_sat-write_sat (dynamic l (addresses f)) h = λ i. record (linked (dynamic l (addresses f))) {
  translated_addresses = mem_to_str-str_to_mem l i;
  fallback_translated_addresses = mem_to_str-str_to_mem (some f) i;
}
read_sat-write_sat (static address both) h =
    λ i. record (linked (static address both)) { static_bi_directional = as_bool-yes_no both i }

-- The destination translations.
pub data Destination : Type 0 where
  kept : Destination
  to_address : String → ℤ → Destination
  to_dynamic : String → ℤ → String → Destination

abbrev pub linked_dat : Destination → Dat
linked_dat kept = no_dat
linked_dat (to_address a p) = record no_dat { type = dat_type_static; address = a; port = p }
linked_dat (to_dynamic a p x) = record {
  type = dat_type_dynamic;
  address = a;
  port = p;
  dynamic_distribution = x;
}

-- Some part of the translation is given, and a dynamic one is to a version that knows it.
abbrev pub IsGiven : Number → Destination → Type 0
IsGiven version kept = Unit
IsGiven version (to_address a p) = (a == "" && int_eq p (pos 0)) ≡ false
IsGiven version (to_dynamic a p x) =
    ((a == "" && (int_eq p (pos 0) && x == "")) ≡ false) × (gte version dynamic_since ≡ true)

pub read_dats-write_v2 :
    (version : Number) (d : Destination)
    → IsGiven version d
    → read_dats (write_static (linked_dat d)) (write_dynamic (linked_dat d)) ≡ linked_dat d
unfolding read_dats write_static write_dynamic
read_dats-write_v2 version kept h = refl
read_dats-write_v2 version (to_address a p) h = ground (arith, h)
read_dats-write_v2 version (to_dynamic a p x) h = ground (arith, h.0)

pub read_dats-write_v1 :
    (version : Number) (d : Destination)
    → gte version dynamic_since ≡ false
    → IsGiven version d
    → read_dats (write_static (linked_dat d)) none ≡ linked_dat d
unfolding read_dats write_static
read_dats-write_v1 version kept old h = refl
read_dats-write_v1 version (to_address a p) old h = ground (arith, h)
read_dats-write_v1 version (to_dynamic a p x) old h = absurd (ground (arith, h.1, old))
