-- ===== src/Namespace/Group/Find.antt =====
-- The loop of `MoveGroup` that looks for the two rules, against the position of a name in a list.
use pango.Base.{
  ℕ, ◌+◌, String, List, [], ◌∷◌, false, Option, none, some, ◌≡◌, refl, ◌==◌, eq_iff, elem, All,
  if◌then◌else◌, arith,
}
use pango.Namespace.Group.{find_indexes}
use pango.Namespace.Write.Laws.{AreDistinct}
use pango.Namespace.Device.Lists.{eq_comm}

-- Where a name stands first, counted from `i`.
abbrev pub index_of : String → ℕ → List String → Option ℕ
index_of x i [] = none
index_of x i (y ∷ l) = if x == y then some i else index_of x (i + 1) l

find_rule :
    (first rule : String) (i f : ℕ) (l : List String)
    → elem first l ≡ false
    → find_indexes first rule i l (some f, none) ≡ (some f, index_of rule i l)
unfolding find_indexes
find_rule first rule i f [] h = refl
find_rule first rule i f (v ∷ l) h = ground (
  arith,
  find_rule first rule (i + 1) f l,
  eq_iff v first,
  eq_iff first v,
  eq_iff v rule,
  eq_iff rule v,
)

find_first :
    (first rule : String) (i o : ℕ) (l : List String)
    → elem rule l ≡ false
    → find_indexes first rule i l (none, some o) ≡ (index_of first i l, some o)
unfolding find_indexes
find_first first rule i o [] h = refl
find_first first rule i o (v ∷ l) h = ground (
  arith,
  find_first first rule (i + 1) o l,
  eq_iff v first,
  eq_iff first v,
  eq_iff v rule,
  eq_iff rule v,
)

pub absent_of_distinct :
    (x : String) (l : List String) → All (λ m. (m == x) ≡ false) l → elem x l ≡ false
absent_of_distinct x [] h = refl
absent_of_distinct x (m ∷ l) h = ground (arith, absent_of_distinct x l h.1, eq_comm m x h.0)

-- In a list that holds no name twice the loop finds the position of each of the two names.
pub find_indexes_lem :
    (first rule : String) (i : ℕ) (l : List String)
    → (first == rule) ≡ false
    → AreDistinct l
    → find_indexes first rule i l (none, none) ≡ (index_of first i l, index_of rule i l)
unfolding find_indexes
find_indexes_lem first rule i [] ne d = refl
find_indexes_lem first rule i (v ∷ l) ne d = ground (
  arith,
  find_indexes_lem first rule (i + 1) l ne d.1,
  find_rule first rule (i + 1) i l,
  find_first first rule (i + 1) i l,
  absent_of_distinct v l d.0,
  eq_iff v first,
  eq_iff first v,
  eq_iff v rule,
  eq_iff rule v,
  eq_iff first rule,
)
