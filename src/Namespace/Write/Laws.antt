-- ===== src/Namespace/Write/Laws.antt =====
-- What `Set` sends.
use mathlib.Core.List.{append_assoc}
use pango.Base.{
  String, List, [], ◌∷◌, ◌++◌, Option, none, some, Error, errorf, str, length, ◌≡◌, refl, false,
  All, ◌==◌, elem, inl, inr, arith, ◌↔◌, ◌≢◌, suc, ◌+◌, ◌-◌, ℕ, length-append, get_elem?-append,
  ltb, nat_eq, Option-cases, ap, ◌∙◌, sym,
}
use pango.Namespace.Client.{Namespace, object, bulk, second_last, drop_last, drop_last-append}
use pango.Namespace.Write.{repeated, set, send}

-- No name stands twice.
abbrev pub AreDistinct : List String → Type 0
AreDistinct [] = Unit
AreDistinct (name ∷ names) = All (λ m. (m == name) ≡ false) names × AreDistinct names

abbrev AreNew : List String → List String → Type 0
AreNew seen names = All (λ m. elem m seen ≡ false) names

AreNew-cons :
    (seen names : List String) (name : String)
    → AreNew (name ∷ seen) names ↔ (All (λ m. (m == name) ≡ false) names × AreNew seen names)
AreNew-cons seen [] name = ground arith
AreNew-cons seen (m ∷ names) name = ground (arith, AreNew-cons seen names name)

repeated_iff :
    (seen names : List String)
    → (repeated seen names ≡ none) ↔ (AreNew seen names × AreDistinct names)
unfolding repeated
repeated_iff seen [] = ground arith
repeated_iff seen (name ∷ names) =
    ground (arith, repeated_iff (name ∷ seen) names, AreNew-cons seen names name)

-- A path as the packages build it: the parent's tag and the entry stand at the end.
abbrev pub to_entry : List String → String → String → List String
to_entry before tag entry = before ++ tag ∷ entry ∷ []

length-to_entry :
    (before : List String) (tag entry : String)
    → length (to_entry before tag entry) ≡ length before + 2
length-to_entry before tag entry = omega (arith, length-append before (tag ∷ entry ∷ []))

index_ok : (k : ℕ) → (ltb (k + 2) 2 ≡ false) × (k + 2 - 2 ≡ k)
index_ok k = ground arith

pub second_last-to_entry :
    (before : List String) (tag entry : String) → second_last (to_entry before tag entry) ≡ some tag
unfolding second_last
second_last-to_entry before tag entry = rw (
  length-to_entry before tag entry,
  (index_ok (length before)).0,
  (index_ok (length before)).1,
  get_elem?-append before (entry ∷ []) tag,
)

pub drop_last-entry :
    (before : List String) (tag entry : String)
    → drop_last 1 (to_entry before tag entry) ≡ before ++ tag ∷ []
drop_last-entry before tag entry =
    ap (drop_last 1) (sym (append_assoc before (tag ∷ []) (entry ∷ [])))
    ∙ drop_last-append (before ++ tag ∷ []) (entry ∷ [])

pub drop_last-tag :
    (before : List String) (tag entry : String) → drop_last 2 (to_entry before tag entry) ≡ before
drop_last-tag before tag entry = drop_last-append before (tag ∷ entry ∷ [])

nothing_seen : (names : List String) → AreNew [] names
nothing_seen [] = tt
nothing_seen (name ∷ names) = (refl, nothing_seen names)

nat_eq_two : (k : ℕ) → nat_eq (suc (suc k)) 1 ≡ false
nat_eq_two k = ground arith

-- The calls that `Set` ought to make, by the number of objects.
abbrev pub sent :
    {S Data : Type 0} → Namespace S Data → List String → String → List Data → S → Option Error × S
sent n before tag [] s = (none, s)
sent n before tag (d ∷ []) s = n.con.set (before ++ tag ∷ []) (object d) s
sent n before tag (d ∷ e ∷ ds) s = n.con.set before (bulk tag (d ∷ e ∷ ds)) s

module _ {S Data : Type 0} (n : Namespace S Data) where
  send-sent :
      (before : List String) (tag entry : String) (d : Data) (ds : List Data) (s : S)
      → send n (to_entry before tag entry) (d ∷ ds) s ≡ some (sent n before tag (d ∷ ds) s)
  unfolding send
  send-sent before tag entry d [] s =
      rw (second_last-to_entry before tag entry, drop_last-entry before tag entry)
  send-sent before tag entry d (e ∷ ds) s = rw (
    second_last-to_entry before tag entry,
    nat_eq_two (length ds),
    drop_last-tag before tag entry,
  )

  -- For a path that ends in a tag and an entry, and names that are distinct: no objects send nothing, one object is set at its parent, and several
  -- are set in one call at the parent of that, under its tag.
  pub set_of_distinct :
      (names before : List String) (tag entry : String) (objects : List Data) (s : S)
      → AreDistinct names
      → set n names (to_entry before tag entry) objects s ≡ some (sent n before tag objects s)
  unfolding set
  set_of_distinct names before tag entry [] s h = refl
  set_of_distinct names before tag entry (d ∷ ds) s h =
      rw ((repeated_iff [] names).1 (nothing_seen names, h), set)
        (send-sent before tag entry d ds s)

  -- Names that are not distinct, with some object: the error names one of them, and the state of
  -- the client is as before, so that nothing was sent.
  pub set_of_repeated :
      (names path : List String) (objects : List Data) (s : S)
      → ¬ AreDistinct names
      → objects ≢ []
      → (name : String) × (set n names path objects s
          ≡ some (
            some (errorf "%s is defined multiple times: %q" (str n.singular ∷ str name ∷ [])),
            s,
          ))
  unfolding set
  set_of_repeated names path [] s h some_object = absurd (some_object refl)
  set_of_repeated names path (d ∷ ds) s h some_object = elim (Option-cases (repeated [] names)) [
    | inl e ↦ absurd (h ((repeated_iff [] names).0 e).1)
    | inr (name, e) ↦ (name, rw (e, set))
  ]
