-- ===== src/Namespace/Device/Order.antt =====
-- Where two names stand in a list, from their positions.
use pango.Base.{
  ℕ, ◌+◌, ◌≤◌, ◌<◌, String, List, [], ◌∷◌, ◌++◌, true, false, some, ◌≡◌, refl, sym, ap, ◌==◌,
  eq_iff, elem, arith, Bool-cases, inl, inr,
}
use pango.Namespace.Group.Find.{index_of}

index_of-ge : (x : String) (i k : ℕ) (l : List String) → index_of x i l ≡ some k → i ≤ k
index_of-ge x i k [] e = ground arith
index_of-ge x i k (y ∷ l) e = ground (arith, index_of-ge x (i + 1) k l)

-- The first occurrence of a name splits the list.
pub record Split (x : String) (l : List String) : Type 0 where
  pub before : List String
  pub behind : List String
  pub whole : l ≡ before ++ x ∷ behind
  pub new : elem x before ≡ false

Split-cons : (x z : String) (l : List String) → (x == z) ≡ false → Split x l → Split x (z ∷ l)
Split-cons x z l ne p = record {
  before = z ∷ p.before;
  behind = p.behind;
  whole = ap (λ m. z ∷ m) p.whole;
  new = rw (ne, p.new);
}

pub split_at : (x : String) (l : List String) → elem x l ≡ true → Split x l
split_at x [] h = absurd (ground arith)
split_at x (z ∷ l) h = elim (Bool-cases (x == z)) [
  | inl e ↦ record {
    before = [];
    behind = l;
    whole = ap (λ y. y ∷ l) (sym ((eq_iff x z).0 e));
    new = refl;
  }
  | inr ne ↦ Split-cons x z l ne (split_at x l (ground arith))
]

elem-index_of : (x : String) (i k : ℕ) (l : List String) → index_of x i l ≡ some k → elem x l ≡ true
elem-index_of x i k [] e = ground arith
elem-index_of x i k (y ∷ l) e = ground (arith, elem-index_of x (i + 1) k l)

pub index_of_present :
    (x : String) (i : ℕ) (l : List String) → elem x l ≡ true → (k : ℕ) × (index_of x i l ≡ some k)
index_of_present x i [] h = absurd (ground arith)
index_of_present x i (y ∷ l) h = elim (Bool-cases (x == y)) [
  | inl e ↦ (i, rw e)
  | inr ne ↦ rw ne (index_of_present x (i + 1) l (ground arith))
]

index_of_head :
    (y : String) (i : ℕ) (l : List String)
    → index_of y i l ≡ some i
    → (a : List String) × (l ≡ y ∷ a)
index_of_head y i [] e = absurd (ground arith)
index_of_head y i (z ∷ l) e = elim (Bool-cases (y == z)) [
  | inl same ↦ (l, ap (λ w. w ∷ l) (sym ((eq_iff y z).0 same)))
  | inr ne ↦ absurd (ground (arith, index_of-ge y (i + 1) i l))
]

Split-head : (x z : String) (l : List String) → (x == z) ≡ true → Split x (z ∷ l)
Split-head x z l e = record {
  before = [];
  behind = l;
  whole = ap (λ y. y ∷ l) (sym ((eq_iff x z).0 e));
  new = refl;
}

-- Of two names at neighbouring positions the second stands directly behind the first.
pub adjacent :
    (x y : String) (i k : ℕ) (l : List String)
    → index_of x i l ≡ some k
    → index_of y i l ≡ some (k + 1)
    → (p : Split x l) × (a : List String) × (p.behind ≡ y ∷ a)
unfolding Split-head Split-cons
adjacent x y i k [] ex ey = absurd (ground arith)
adjacent x y i k (z ∷ l) ex ey = elim (Bool-cases (x == z)) [
  | inl e ↦
      let (a, q) = index_of_head y (i + 1) l (ground (arith, eq_iff x y, eq_iff y z)) in
      (Split-head x z l e, a, q)
  | inr ne ↦
      let (p, a, q) =
        adjacent x y (i + 1) k l (ground arith) (ground (arith, index_of-ge x (i + 1) k l)) in
      (Split-cons x z l ne p, a, q)
]

-- Of two names at positions that rise the second stands somewhere behind the first.
pub later :
    (x y : String) (i k m : ℕ) (l : List String)
    → index_of x i l ≡ some k
    → index_of y i l ≡ some m
    → k < m
    → (p : Split x l) × (elem y p.behind ≡ true)
unfolding Split-head Split-cons
later x y i k m [] ex ey lt = absurd (ground arith)
later x y i k m (z ∷ l) ex ey lt = elim (Bool-cases (x == z)) [
  | inl e ↦ (Split-head x z l e, elem-index_of y (i + 1) m l (ground arith))
  | inr ne ↦
      let (p, q) =
        later x y (i + 1) k m l (ground arith) (ground (arith, index_of-ge x (i + 1) k l)) lt in
      (Split-cons x z l ne p, q)
]

-- And at positions that fall, somewhere before it.
pub earlier :
    (x y : String) (i k m : ℕ) (l : List String)
    → index_of x i l ≡ some k
    → index_of y i l ≡ some m
    → m < k
    → (p : Split x l) × (elem y p.before ≡ true)
unfolding Split-cons
earlier x y i k m [] ex ey lt = absurd (ground arith)
earlier x y i k m (z ∷ l) ex ey lt = elim (Bool-cases (y == z)) [
  | inl e ↦
      let ne : (x == z) ≡ false = ground arith in
      let p = split_at x l (elem-index_of x (i + 1) k l (ground arith)) in
      (Split-cons x z l ne p, rw e)
  | inr ny ↦
      let ne : (x == z) ≡ false = ground (arith, index_of-ge y (i + 1) m l) in
      let (p, q) = earlier x y (i + 1) k m l (ground arith) (ground arith) lt in
      (Split-cons x z l ne p, rw (ny, q))
]

head_eq : (y z : String) (i : ℕ) (l : List String) → index_of y i (z ∷ l) ≡ some i → (y == z) ≡ true
head_eq y z i l e = ground (arith, index_of-ge y (i + 1) i l)

Split_of_head : (y : String) (i : ℕ) (l : List String) → index_of y i l ≡ some i → Split y l
Split_of_head y i [] e = absurd (ground arith)
Split_of_head y i (z ∷ l) e = Split-head y z l (head_eq y z i l e)

before-Split_of_head :
    (y : String) (i : ℕ) (l : List String) (e : index_of y i l ≡ some i)
    → (Split_of_head y i l e).before ≡ []
unfolding Split_of_head Split-head
before-Split_of_head y i [] e = absurd (ground arith)
before-Split_of_head y i (z ∷ l) e = refl

-- The same seen from the second of two neighbours.
pub adjacent_second :
    (x y : String) (i k : ℕ) (l : List String)
    → index_of x i l ≡ some k
    → index_of y i l ≡ some (k + 1)
    → (p : Split y l) × (b : List String) × (p.before ≡ b ++ x ∷ [])
unfolding Split-head Split-cons
adjacent_second x y i k [] ex ey = absurd (ground arith)
adjacent_second x y i k (z ∷ l) ex ey = elim (Bool-cases (x == z)) [
  | inl e ↦
      let ne : (y == z) ≡ false = ground arith in
      (
        Split-cons y z l ne (Split_of_head y (i + 1) l (ground arith)),
        [],
        ground (arith, eq_iff x z, before-Split_of_head y (i + 1) l (ground arith)),
      )
  | inr ne ↦
      let ny : (y == z) ≡ false = ground (arith, index_of-ge x (i + 1) k l) in
      let (p, b, q) = adjacent_second x y (i + 1) k l (ground arith) (ground arith) in
      (Split-cons y z l ny p, z ∷ b, ap (λ m. z ∷ m) q)
]

pub same_index :
    (x y : String) (i k : ℕ) (l : List String)
    → index_of x i l ≡ some k
    → index_of y i l ≡ some k
    → x ≡ y
same_index x y i k [] ex ey = absurd (ground arith)
same_index x y i k (z ∷ l) ex ey = ground (
  arith,
  eq_iff x z,
  eq_iff y z,
  index_of-ge x (i + 1) k l,
  index_of-ge y (i + 1) k l,
  same_index x y (i + 1) k l,
)
