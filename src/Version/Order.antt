-- ===== src/Version/Order.antt =====
-- `Gte` orders the version numbers by their three parts.
use pango.Base.{◌≡◌, ◌⊎◌, ◌↔◌, true, ◌<◌, ◌+◌, arith, ℤ, pos_part, neg_part, ◌≤ℤ◌, int_eq_iff}
use pango.Version.{Number, gte}

infix 50 ◌<ℤ◌
abbrev ◌<ℤ◌ : ℤ → ℤ → Type 0
a <ℤ b = pos_part a + neg_part b < pos_part b + neg_part a

-- The lexicographic order on major, minor and patch number.
abbrev pub AtLeast : Number → Number → Type 0
AtLeast v o =
    (o.major <ℤ v.major)
    ⊎ ((v.major ≡ o.major) × ((o.minor <ℤ v.minor) ⊎ ((v.minor ≡ o.minor) × (o.patch ≤ℤ v.patch))))

eq_of_le : (a b : ℤ) → a ≤ℤ b → b ≤ℤ a → a ≡ b
eq_of_le a b h k = ground arith

-- `Gte` holds exactly when the version is at least the other one in the lexicographic order of
-- major, minor and patch number.
pub gte_iff : (v o : Number) → (gte v o ≡ true) ↔ AtLeast v o
unfolding gte
gte_iff v o = ground (arith, int_eq_iff v.major o.major, int_eq_iff v.minor o.minor)

AtLeast-trans : (a b c : Number) → AtLeast a b → AtLeast b c → AtLeast a c
AtLeast-trans a b c h k = ground arith

-- Of two versions one is at least the other.
pub gte_total : (a b : Number) → (gte a b ≡ true) ⊎ (gte b a ≡ true)
gte_total a b =
    ground (arith, gte_iff a b, gte_iff b a, eq_of_le a.major b.major, eq_of_le a.minor b.minor)

-- Two versions that are each at least the other differ at most in the suffix.
pub gte_antisymm :
    (a b : Number)
    → gte a b ≡ true
    → gte b a ≡ true
    → (a.major ≡ b.major) × (a.minor ≡ b.minor) × (a.patch ≡ b.patch)
gte_antisymm a b h k = ground (arith, gte_iff a b, gte_iff b a, eq_of_le a.patch b.patch)

-- `Gte` is transitive.
pub gte_trans : (a b c : Number) → gte a b ≡ true → gte b c ≡ true → gte a c ≡ true
gte_trans a b c h k = (gte_iff a c).1 (AtLeast-trans a b c ((gte_iff a b).0 h) ((gte_iff b c).0 k))
