-- ===== src/Objs/Addr/Access.antt =====
-- The address objects of a firewall on a device that stores objects by name: fw of `Objs.Addr` with what
-- its entries are read back as.
use pango.Base.{
  String, List, [], ◌∷◌, map, true, false, none, ◌≡◌, refl, ◌∙◌, All, elem, ◌++◌, Bool-cases, inl,
  inr,
}
use pango.Version.{Number, gte}
use pango.Util.Xpath.{vsys_xpath_prefix}
use pango.Entries.{Con, Operations, called}
use pango.Entries.Stored.{IsPlain, IsDevice, IsLocated}
use pango.Entries.Located.{located}
use pango.Entries.Held.{AreApart}
use pango.Entries.Access.{IsKept, get-set}
use pango.Objs.Addr.{
  Entry, Object, v1, v2, Container, all_v1, all_v2, specify, specify_v1, specify_v2, normalize,
  normalize_all, versioning, fw_xpath, fw, since_v2,
}
use pango.Objs.Addr.RoundTrip.{is_known, normalize-specify_addr}

-- The name in the struct of an address object, and the container that a response of it is in.
abbrev pub object_name : Object → String
object_name (v1 o) = o.name
object_name (v2 o) = o.name

abbrev pub holds : Object → Container
holds (v1 o) = all_v1 (o ∷ [])
holds (v2 o) = all_v2 (o ∷ [])

fw_located : (vsys : String) → IsLocated (fw_xpath vsys) (called "address")
unfolding fw_xpath
fw_located vsys = located (fw_xpath vsys) (vsys_xpath_prefix vsys) "address" (λ ns. refl)

module _ (version : Number) where
  named :
      (e : Entry) → object_name ((versioning version).specify e) ≡ (versioning version).name_of e
  unfolding versioning specify specify_v1 specify_v2
  named e = elim (Bool-cases (gte version since_v2)) [
    | inl new ↦ rw new refl
    | inr old ↦ rw old refl
  ]

  normalize-holds : (o : Object) → (versioning version).normalize (holds o) ≡ normalize o
  unfolding versioning normalize_all normalize
  normalize-holds (v1 o) = refl
  normalize-holds (v2 o) = refl

  module _ {S : Type 0} (con : Con S Object Container) (dev : IsDevice con object_name holds)
      (vsys : String) where
    abbrev pub addresses : Operations S Entry
    addresses = fw version con vsys

    abbrev AreKnown : List Entry → Type 0
    AreKnown es = All (λ e. is_known version e.type ≡ true) es

    abbrev IsRead : S → Entry → Type 0
    IsRead s e = addresses.get e.name s ≡ ((none, e), s)

    abbrev IsMissing : S → Entry → Type 0
    IsMissing s e = dev.held (vsys_xpath_prefix vsys ++ "address" ∷ []) e.name s ≡ none

    known-IsKept :
        (es : List Entry)
        → AreKnown es
        → All (IsKept (versioning version) con object_name holds dev named) es
    unfolding versioning specify
    known-IsKept [] h = tt
    known-IsKept (e ∷ es) (he, h) = (
      normalize-holds (specify version e) ∙ normalize-specify_addr e version ∙ rw he refl,
      known-IsKept es h,
    )

    -- On a device that stores objects by name, address objects that are set on a firewall are
    -- all read back as they were given, without an error, if the version knows their types, an
    -- xpath can hold their names, no two have one name, and the vsys has none of them yet; what
    -- is read of another name that an xpath can hold is as before.
    pub get-set_addr :
        (e : Entry) (es : List Entry) (m : String) (s : S)
        → AreKnown (e ∷ es)
        → All IsPlain (map (λ x. x.name) (e ∷ es))
        → AreApart (map (λ x. x.name) (e ∷ es))
        → All (IsMissing s) (e ∷ es)
        → IsPlain m
        → elem m (map (λ x. x.name) (e ∷ es)) ≡ false
        → ((addresses.set (e ∷ es) s).0 ≡ none)
          × All (IsRead (addresses.set (e ∷ es) s).1) (e ∷ es)
          × ((addresses.get m (addresses.set (e ∷ es) s).1).0 ≡ (addresses.get m s).0)
    unfolding fw versioning fw_located
    get-set_addr e es m s known plain distinct missing plain_m other =
        get-set (versioning version) con object_name holds dev named (fw_xpath vsys)
          (called "address") (fw_located vsys) "Unsupported type to delete: %s" e es m s plain
          distinct missing (known-IsKept (e ∷ es) known) plain_m other
