-- ===== src/Client/Batch/Ids.antt =====
-- The numbers that `IncrementalIds` gives.
use pango.Base.{
  ℕ, ◌+◌, ◌≤◌, ◌<◌, String, List, [], ◌∷◌, map, true, false, ◌≡◌, refl, ap, sym, ◌∙◌, ◌==◌, eq_iff,
  All, length, arith, pos, Bool-cases, inl, inr,
}
use pango.Base.Decimal.{itoa, atoi, max_int}
use pango.Base.Decimal.RoundTrip.{atoi-itoa, itoa-ne-nil}
use pango.Namespace.Write.Laws.{AreDistinct}
use pango.Client.Config.{Request}
use pango.Client.Batch.{number_from, incremental_ids}

itoa_named : (n : ℕ) → (itoa (pos n) == "") ≡ false
itoa_named n = elim (Bool-cases (itoa (pos n) == "")) [
  | inl e ↦ absurd (itoa-ne-nil n ((eq_iff _ "").0 e))
  | inr e ↦ e
]

itoa_differs : (m n : ℕ) → m ≤ max_int → n < m → (itoa (pos m) == itoa (pos n)) ≡ false
itoa_differs m n h lt = elim (Bool-cases (itoa (pos m) == itoa (pos n))) [
  | inl e ↦
      let same = sym (atoi-itoa m h) ∙ ap atoi ((eq_iff _ _).0 e) ∙ atoi-itoa n (omega arith) in
      absurd (ground (arith, same))
  | inr e ↦ e
]

module _ {D : Type 0} where
  abbrev pub ids : List (Request D) → List String
  ids rs = map (λ r. r.id) rs

  abbrev pub AreBlank : List (Request D) → Type 0
  AreBlank rs = All (λ r. (r.id == "") ≡ true) rs

  number_from_twice :
      (i : ℕ) (rs : List (Request D)) → number_from i (number_from i rs) ≡ number_from i rs
  unfolding number_from
  number_from_twice i [] = refl
  number_from_twice i (r ∷ rs) = elim (Bool-cases (r.id == "")) [
    | inl e ↦
        rw (e, itoa_named (i + 1))
          (ap (λ l. record r { id = itoa (pos (i + 1)) } ∷ l) (number_from_twice (i + 1) rs))
    | inr e ↦ rw (e, e) (ap (λ l. r ∷ l) (number_from_twice (i + 1) rs))
  ]

  -- Numbering the requests a second time changes nothing.
  pub incremental_ids_twice :
      (rs : List (Request D)) → incremental_ids (incremental_ids rs) ≡ incremental_ids rs
  unfolding incremental_ids
  incremental_ids_twice rs = number_from_twice 0 rs

  numbers_above :
      (k i : ℕ) (rs : List (Request D))
      → k ≤ i
      → AreBlank rs
      → i + length rs ≤ max_int
      → All (λ m. (m == itoa (pos k)) ≡ false) (ids (number_from i rs))
  unfolding number_from
  numbers_above k i [] h blank fits = tt
  numbers_above k i (r ∷ rs) h blank fits = (
    rw blank.0 (itoa_differs (i + 1) k (omega arith) (omega arith)),
    numbers_above k (i + 1) rs (omega arith) blank.1 (omega arith),
  )

  number_from-AreDistinct :
      (i : ℕ) (rs : List (Request D))
      → AreBlank rs
      → i + length rs ≤ max_int
      → AreDistinct (ids (number_from i rs))
  unfolding number_from
  number_from-AreDistinct i [] blank fits = tt
  number_from-AreDistinct i (r ∷ rs) blank fits = (
    rw blank.0 (numbers_above (i + 1) (i + 1) rs (omega arith) blank.1 (omega arith)),
    number_from-AreDistinct (i + 1) rs blank.1 (omega arith),
  )

  -- Requests without ids, fewer than an `int` counts, get ids that are all distinct.
  pub incremental_ids-AreDistinct :
      (rs : List (Request D))
      → AreBlank rs
      → length rs ≤ max_int
      → AreDistinct (ids (incremental_ids rs))
  unfolding incremental_ids
  incremental_ids-AreDistinct rs blank fits = number_from-AreDistinct 0 rs blank (omega arith)
