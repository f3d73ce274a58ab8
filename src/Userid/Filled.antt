-- ===== src/Userid/Filled.antt =====
-- Maps that are filled from lists, and the pages of a list.
use mathlib.Core.List.{append-nil, append_assoc}
use pango.Base.{
  ℕ, zero, suc, ◌-◌, ◌≤◌, String, List, [], ◌∷◌, ◌++◌, map, true, false, All, length, take, drop,
  ltb, ◌≡◌, refl, sym, ap, subst, ◌∙◌, ◌==◌, arith,
}
use pango.Namespace.Device.Lists.{eq_comm}
use pango.Namespace.Write.Laws.{AreDistinct}
use pango.Userid.{put, put_all}

module _ {A : Type 0} where
  pub take-drop : (n : ℕ) (l : List A) → take n l ++ drop n l ≡ l
  take-drop zero l = refl
  take-drop (suc n) [] = refl
  take-drop (suc n) (x ∷ l) = ap (λ t. x ∷ t) (take-drop n l)

  pub drop-append : (l m : List A) → drop (length l) (l ++ m) ≡ m
  drop-append [] m = refl
  drop-append (x ∷ l) m = drop-append l m

  pub length-drop : (n : ℕ) (l : List A) → length (drop n l) ≡ length l - n
  length-drop zero l = omega arith
  length-drop (suc n) [] = omega arith
  length-drop (suc n) (x ∷ l) = omega (arith, length-drop n l)

  -- A page that is not full is the last one.
  pub last_page : (n : ℕ) (l : List A) → ltb (length (take n l)) n ≡ true → take n l ≡ l
  last_page zero l h = absurd (ground (arith, h))
  last_page (suc n) [] h = refl
  last_page (suc n) (x ∷ l) h = ap (λ t. x ∷ t) (last_page n l (ground (arith, h)))

  pub full_page : (n : ℕ) (l : List A) → ltb (length (take n l)) n ≡ false → n ≤ length l
  full_page zero l h = omega arith
  full_page (suc n) [] h = absurd (ground (arith, h))
  full_page (suc n) (x ∷ l) h =
      let r : n ≤ length l = full_page n l (ground (arith, h)) in omega arith

module _ {E V : Type 0} (key : E → String) (val : E → V) where
  abbrev pub pairs : List E → List (String × V)
  pairs l = map (λ e. (key e, val e)) l

  abbrev pub keys : List E → List String
  keys l = map key l

  pub put_all-append :
      (l l' : List E) (m : List (String × V))
      → put_all key val (l ++ l') m ≡ put_all key val l' (put_all key val l m)
  unfolding put_all
  put_all-append [] l' m = refl
  put_all-append (e ∷ l) l' m = put_all-append l l' (put (key e) (val e) m)

  put_of_new :
      (k : String) (v : V) (done : List E)
      → All (λ j. (k == j) ≡ false) (keys done)
      → put k v (pairs done) ≡ pairs done ++ (k, v) ∷ []
  unfolding put
  put_of_new k v [] h = refl
  put_of_new k v (e ∷ done) h = rw (eq_comm k (key e) h.0, put_of_new k v done h.1) refl

  new_of_distinct :
      (done : List E) (e : E) (l : List E)
      → AreDistinct (keys (done ++ e ∷ l))
      → All (λ j. (key e == j) ≡ false) (keys done)
  new_of_distinct [] e l d = tt
  new_of_distinct (x ∷ done) e l d = (later done d.0, new_of_distinct done e l d.1)
    where
      later :
          (done : List E)
          → All (λ m. (m == key x) ≡ false) (keys (done ++ e ∷ l))
          → (key e == key x) ≡ false
      later [] h = h.0
      later (y ∷ done) h = later done h.1

  pairs-append : (l l' : List E) → pairs (l ++ l') ≡ pairs l ++ pairs l'
  pairs-append [] l' = refl
  pairs-append (e ∷ l) l' = ap (λ t. (key e, val e) ∷ t) (pairs-append l l')

  put_all_after :
      (done l : List E)
      → AreDistinct (keys (done ++ l))
      → put_all key val l (pairs done) ≡ pairs (done ++ l)
  unfolding put_all
  put_all_after done [] d = ap pairs (sym (append-nil done))
  put_all_after done (e ∷ l) d =
      ap (put_all key val l) (
        put_of_new (key e) (val e) done (new_of_distinct done e l d)
        ∙ sym (pairs-append done (e ∷ [])))
      ∙ put_all_after (done ++ e ∷ []) l
          (subst (λ t. AreDistinct (keys t)) (sym (append_assoc done (e ∷ []) l)) d)
      ∙ ap pairs (append_assoc done (e ∷ []) l)

  pub put_all_distinct : (l : List E) → AreDistinct (keys l) → put_all key val l [] ≡ pairs l
  put_all_distinct l d = put_all_after [] l d

  distinct_prefix : (l l' : List E) → AreDistinct (keys (l ++ l')) → AreDistinct (keys l)
  distinct_prefix [] l' d = tt
  distinct_prefix (e ∷ l) l' d = (before l d.0, distinct_prefix l l' d.1)
    where
      before :
          (l : List E)
          → All (λ m. (m == key e) ≡ false) (keys (l ++ l'))
          → All (λ m. (m == key e) ≡ false) (keys l)
      before [] h = tt
      before (x ∷ l) h = (h.0, before l h.1)

  length-pairs : (l : List E) → length (pairs l) ≡ length l
  length-pairs [] = refl
  length-pairs (e ∷ l) = ap suc (length-pairs l)

  -- As many keys as entries of the part that was read.
  pub length-put_all :
      (l l' : List E) → AreDistinct (keys (l ++ l')) → length (put_all key val l []) ≡ length l
  length-put_all l l' d = ap length (put_all_distinct l (distinct_prefix l l' d)) ∙ length-pairs l
