-- ===== src/Objs/Addr/RoundTrip.antt =====
-- Address objects survive the XML struct of the version, if it knows their type.
use pango.Base.{
  String, true, false, ◌≡◌, refl, ◌∙◌, ◌==◌, ◌||◌, Bool, eq_iff, arith, if◌then◌else◌, Bool-cases,
  inl, inr,
}
use pango.Util.Member.{mem_to_str-str_to_mem}
use pango.Version.{Number, gte}
use pango.Objs.Addr.{
  Entry, ip_netmask, ip_range, fqdn, ip_wildcard, since_v2, specify_v1, specify_v2, normalize_v1,
  normalize_v2, specify, normalize,
}

-- The types that a version knows.
abbrev pub is_known : Number → String → Bool
is_known version t =
    t == ip_netmask
    || t == ip_range
    || t == fqdn
    || (if gte version since_v2 then t == ip_wildcard else false)

module _ (e : Entry) where
  -- Neither the type nor the value.
  abbrev pub lost : Entry
  lost = record e { type = ""; value = "" }

  keep_or_lose :
      (b : Bool)
      → record e { value = if b then e.value else ""; type = if b then e.type else "" }
        ≡ (if b then e else lost)
  keep_or_lose true = refl
  keep_or_lose false = refl

  abbrev known_v1 : Bool
  known_v1 = e.type == ip_netmask || e.type == ip_range || e.type == fqdn

  type_v1 : (normalize_v1 (specify_v1 e)).type ≡ (if known_v1 then e.type else "")
  unfolding normalize_v1 specify_v1
  type_v1 = ground (arith, eq_iff e.type ip_netmask, eq_iff e.type ip_range, eq_iff e.type fqdn)

  value_v1 : (normalize_v1 (specify_v1 e)).value ≡ (if known_v1 then e.value else "")
  unfolding normalize_v1 specify_v1
  value_v1 = ground arith

  normalize-specify_v1 : normalize_v1 (specify_v1 e) ≡ (if known_v1 then e else lost)
  unfolding normalize_v1 specify_v1
  normalize-specify_v1 =
      (λ i. record e {
        value = value_v1 i;
        type = type_v1 i;
        tags = mem_to_str-str_to_mem e.tags i;
      })
      ∙ keep_or_lose known_v1

  abbrev known_v2 : Bool
  known_v2 = e.type == ip_netmask || e.type == ip_range || e.type == fqdn || e.type == ip_wildcard

  type_v2 : (normalize_v2 (specify_v2 e)).type ≡ (if known_v2 then e.type else "")
  unfolding normalize_v2 specify_v2
  type_v2 = ground (
    arith,
    eq_iff e.type ip_netmask,
    eq_iff e.type ip_range,
    eq_iff e.type fqdn,
    eq_iff e.type ip_wildcard,
  )

  value_v2 : (normalize_v2 (specify_v2 e)).value ≡ (if known_v2 then e.value else "")
  unfolding normalize_v2 specify_v2
  value_v2 = ground arith

  normalize-specify_v2 : normalize_v2 (specify_v2 e) ≡ (if known_v2 then e else lost)
  unfolding normalize_v2 specify_v2
  normalize-specify_v2 =
      (λ i. record e {
        value = value_v2 i;
        type = type_v2 i;
        tags = mem_to_str-str_to_mem e.tags i;
      })
      ∙ keep_or_lose known_v2

  -- What an address object is read back as from the XML struct of the version: itself where the version
  -- knows its type, which is IP wildcard only from 9.0 on, and otherwise itself with neither type nor
  -- value.
  pub normalize-specify_addr :
      (version : Number)
      → normalize (specify version e) ≡ (if is_known version e.type then e else lost)
  unfolding normalize specify
  normalize-specify_addr version = elim (Bool-cases (gte version since_v2)) [
    | inl new ↦ rw new normalize-specify_v2
    | inr old ↦ rw old (normalize-specify_v1 ∙ ground arith)
  ]
