-- ===== src/Poli/Nat/RoundTrip.antt =====
-- A NAT rule survives its XML struct, in the version that the client says.
use pango.Base.{
  Bool, true, false, Option, none, some, ◌≡◌, refl, sym, subst, ◌∙◌, Bool-cases, inl, inr, [], ◌∷◌,
}
use pango.Util.Flag.{as_bool-yes_no}
use pango.Util.Member.{mem_to_str-str_to_mem}
use pango.Util.Target.{Targets, MapIsDistinct, nil_if_empty, vsys_ent_to_map-map_to_vsys_ent}
use pango.Version.{Number, gte}
use pango.Poli.Security.Xml.{target_map, target_negated}
use pango.Poli.Nat.{Entry, dat_type_dynamic}
use pango.Poli.Nat.Xlate.{no_dat, read_sat, read_dats, write_sat, write_static, write_dynamic}
use pango.Poli.Nat.Xml.{
  sat_of, dat_of, target_info, dynamic_since, specify_v1, specify_v2, normalize_v1, normalize_v2,
  specify, normalize,
}
use pango.Poli.Nat.Translation.{
  Translation, linked, HasAddress, read_sat-write_sat, Destination, linked_dat, IsGiven,
  read_dats-write_v1, read_dats-write_v2,
}

negated_lem :
    (targets : Option Targets) (negated : Bool)
    → target_negated (target_info targets negated) ≡ negated
negated_lem none false = refl
negated_lem none true = as_bool-yes_no true
negated_lem (some []) false = refl
negated_lem (some []) true = as_bool-yes_no true
negated_lem (some (t ∷ m)) negated = as_bool-yes_no negated

targets_lem :
    (targets : Option Targets) (negated : Bool)
    → MapIsDistinct targets
    → target_map (target_info targets negated) ≡ nil_if_empty targets
targets_lem none false d = refl
targets_lem none true d = vsys_ent_to_map-map_to_vsys_ent none tt
targets_lem (some []) false d = refl
targets_lem (some []) true d = vsys_ent_to_map-map_to_vsys_ent (some []) tt
targets_lem (some (t ∷ m)) negated d = vsys_ent_to_map-map_to_vsys_ent (some (t ∷ m)) d

-- A rule whose parameters say one translation of each kind, for a version of PAN-OS.
pub record IsLinked (version : Number) (e : Entry) : Type 0 where
  pub translation : Translation
  pub sat : sat_of e ≡ linked translation
  pub address : HasAddress translation
  pub destination : Destination
  pub dat : dat_of e ≡ linked_dat destination
  pub given : IsGiven version destination
  pub distinct : MapIsDistinct e.targets
  pub targets : nil_if_empty e.targets ≡ e.targets

module _ (version : Number) (e : Entry) (h : IsLinked version e) where
  sat_kept : read_sat (write_sat (sat_of e)) ≡ sat_of e
  sat_kept =
      subst (λ x. read_sat (write_sat x) ≡ x) (sym h.sat)
        (read_sat-write_sat h.translation h.address)

  dat_kept_v1 :
      gte version dynamic_since ≡ false → read_dats (write_static (dat_of e)) none ≡ dat_of e
  dat_kept_v1 old =
      subst (λ x. read_dats (write_static x) none ≡ x) (sym h.dat)
        (read_dats-write_v1 version h.destination old h.given)

  dat_kept_v2 : read_dats (write_static (dat_of e)) (write_dynamic (dat_of e)) ≡ dat_of e
  dat_kept_v2 =
      subst (λ x. read_dats (write_static x) (write_dynamic x) ≡ x) (sym h.dat)
        (read_dats-write_v2 version h.destination h.given)

  kept_v1 : gte version dynamic_since ≡ false → normalize_v1 (specify_v1 e) ≡ e
  unfolding normalize_v1 specify_v1
  kept_v1 old = λ i. record {
    name = e.name;
    description = e.description;
    type = e.type;
    source_zones = mem_to_str-str_to_mem e.source_zones i;
    destination_zone = e.destination_zone;
    to_interface = e.to_interface;
    service = e.service;
    source_addresses = mem_to_str-str_to_mem e.source_addresses i;
    destination_addresses = mem_to_str-str_to_mem e.destination_addresses i;
    sat_type = (sat_kept i).type;
    sat_address_type = (sat_kept i).address_type;
    sat_translated_addresses = (sat_kept i).translated_addresses;
    sat_interface = (sat_kept i).interface;
    sat_ip_address = (sat_kept i).ip_address;
    sat_fallback_type = (sat_kept i).fallback_type;
    sat_fallback_translated_addresses = (sat_kept i).fallback_translated_addresses;
    sat_fallback_interface = (sat_kept i).fallback_interface;
    sat_fallback_ip_type = (sat_kept i).fallback_ip_type;
    sat_fallback_ip_address = (sat_kept i).fallback_ip_address;
    sat_static_translated_address = (sat_kept i).static_translated_address;
    sat_static_bi_directional = (sat_kept i).static_bi_directional;
    dat_type = (dat_kept_v1 old i).type;
    dat_address = (dat_kept_v1 old i).address;
    dat_port = (dat_kept_v1 old i).port;
    dat_dynamic_distribution = (dat_kept_v1 old i).dynamic_distribution;
    disabled = as_bool-yes_no e.disabled i;
    targets = (targets_lem e.targets e.negate_target h.distinct ∙ h.targets) i;
    negate_target = negated_lem e.targets e.negate_target i;
    tags = mem_to_str-str_to_mem e.tags i;
  }

  kept_v2 : normalize_v2 (specify_v2 e) ≡ e
  unfolding normalize_v2 specify_v2
  kept_v2 = λ i. record {
    name = e.name;
    description = e.description;
    type = e.type;
    source_zones = mem_to_str-str_to_mem e.source_zones i;
    destination_zone = e.destination_zone;
    to_interface = e.to_interface;
    service = e.service;
    source_addresses = mem_to_str-str_to_mem e.source_addresses i;
    destination_addresses = mem_to_str-str_to_mem e.destination_addresses i;
    sat_type = (sat_kept i).type;
    sat_address_type = (sat_kept i).address_type;
    sat_translated_addresses = (sat_kept i).translated_addresses;
    sat_interface = (sat_kept i).interface;
    sat_ip_address = (sat_kept i).ip_address;
    sat_fallback_type = (sat_kept i).fallback_type;
    sat_fallback_translated_addresses = (sat_kept i).fallback_translated_addresses;
    sat_fallback_interface = (sat_kept i).fallback_interface;
    sat_fallback_ip_type = (sat_kept i).fallback_ip_type;
    sat_fallback_ip_address = (sat_kept i).fallback_ip_address;
    sat_static_translated_address = (sat_kept i).static_translated_address;
    sat_static_bi_directional = (sat_kept i).static_bi_directional;
    dat_type = (dat_kept_v2 i).type;
    dat_address = (dat_kept_v2 i).address;
    dat_port = (dat_kept_v2 i).port;
    dat_dynamic_distribution = (dat_kept_v2 i).dynamic_distribution;
    disabled = as_bool-yes_no e.disabled i;
    targets = (targets_lem e.targets e.negate_target h.distinct ∙ h.targets) i;
    negate_target = negated_lem e.targets e.negate_target i;
    tags = mem_to_str-str_to_mem e.tags i;
  }

  -- A NAT rule is read back from the XML struct of the version as it was, on these conditions.
  -- Its source translation is of the type none, dynamic IP and port, on translated addresses or
  -- an interface, dynamic IP, or static IP, with the parameters that the documentation links to
  -- that and with all others empty; the fallback of a dynamic IP is of the type none, on an
  -- interface, or on a list of addresses that is not nil, and the IP address on an interface
  -- has a type exactly if it is not empty. Its destination translation is left out with all its
  -- parameters, or is static, with an address or a port and without a distribution, or, from
  -- version 8.1 on, is dynamic, with an address, a port or a distribution, which is more than
  -- is documented. The map of its targets holds no key twice and is not an empty map.
  pub normalize-specify_nat : normalize (specify version e) ≡ e
  unfolding normalize specify
  normalize-specify_nat = elim (Bool-cases (gte version dynamic_since)) [
    | inl new ↦ rw new kept_v2
    | inr old ↦ rw old (kept_v1 old)
  ]

-- Below version 8.1 a dynamic destination translation is lost without an error: the rule that is read
-- back has no destination translation.
pub dynamic_lost :
    (version : Number) (e : Entry)
    → gte version dynamic_since ≡ false
    → e.dat_type ≡ dat_type_dynamic
    → dat_of (normalize (specify version e)) ≡ no_dat
unfolding normalize specify normalize_v1 specify_v1 read_dats write_static
dynamic_lost version e old type_ = rw (old, type_) refl
