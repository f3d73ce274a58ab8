-- ===== src/Version/RoundTrip.antt =====
-- `New` reads back what `String` prints.
use Prim.Native.String.{◌++◌}
use package.text.Mathlib.TextLemmas.{append-nil}
use pango.Base.{
  ℕ, ◌≡◌, ◌≢◌, ◌≤◌, ◌<◌, arith, String, List, [], ◌∷◌, none, some, pos, eq_iff, length, ◌↔◌,
  Bool-cases, inl, inr, ◌==◌,
}
use pango.Base.Decimal.{itoa, max_int}
use pango.Base.Decimal.RoundTrip.{atoi-itoa, itoa-AllDigits, AllDigits}
use pango.Base.Strings.{Lacks, AllCodes-append, split, split-Lacks, split-append}
use pango.Version.{Number, to_string, new, new_parts, new_numbers, new_suffix, new_patch}

-- The number of parts that `New` splits a text into.
abbrev pub parts : String → ℕ
parts s = length (split b'.' s)

new_parts_iff : (ps : List String) → (new_parts ps ≡ none) ↔ (length ps < 3)
unfolding new_parts
new_parts_iff [] = ground arith
new_parts_iff (a ∷ []) = ground arith
new_parts_iff (a ∷ b ∷ []) = ground arith
new_parts_iff (a ∷ b ∷ c ∷ ps) = ground arith

-- `New` panics exactly on a text of fewer than three parts between dots, and on every other text
-- it returns.
pub new_panics_iff : (s : String) → (new s ≡ none) ↔ (parts s < 3)
unfolding new
new_panics_iff s = new_parts_iff (split b'.' s)

abbrev dot : String → String
dot s = String.◌∷◌ "." s

abbrev dash : String → String
dash s = String.◌∷◌ "-" s

AllDigits-Lacks_dot : (s : String) → AllDigits s → Lacks b'.' s
AllDigits-Lacks_dot String.[] h = tt
AllDigits-Lacks_dot (String.◌∷◌ c s) h = (omega arith, AllDigits-Lacks_dot s h.1)

AllDigits-Lacks_dash : (s : String) → AllDigits s → Lacks b'-' s
AllDigits-Lacks_dash String.[] h = tt
AllDigits-Lacks_dash (String.◌∷◌ c s) h = (omega arith, AllDigits-Lacks_dash s h.1)

-- A version as PAN-OS prints it: no part is negative or beyond an `int`, and the suffix holds no
-- separator.
pub record IsPrintable (v : Number) : Type 0 where
  pub major : ℕ
  pub minor : ℕ
  pub patch : ℕ
  pub is_major : v.major ≡ pos major
  pub is_minor : v.minor ≡ pos minor
  pub is_patch : v.patch ≡ pos patch
  pub fits : (major ≤ max_int) × (minor ≤ max_int) × (patch ≤ max_int)
  pub no_dot : Lacks b'.' v.suffix
  pub no_dash : Lacks b'-' v.suffix

split_three :
    (a b c : String)
    → Lacks b'.' a
    → Lacks b'.' b
    → Lacks b'.' c
    → split b'.' (a ++ dot (b ++ dot c)) ≡ a ∷ b ∷ c ∷ []
split_three a b c ha hb hc =
    rw (split-append a (b ++ dot c) "." ha, split-append b c "." hb, split-Lacks b'.' c hc)

new_numbers_of_itoa :
    (a b : ℕ) (third : String)
    → a ≤ max_int
    → b ≤ max_int
    → new_numbers (itoa (pos a)) (itoa (pos b)) third
      ≡ new_suffix (pos a) (pos b) third (split b'-' third)
unfolding new_numbers
new_numbers_of_itoa a b third ha hb = ground (arith, atoi-itoa a ha, atoi-itoa b hb)

new_patch_of_itoa :
    (major minor c : ℕ) (suffix : String)
    → c ≤ max_int
    → new_patch (pos major) (pos minor) (itoa (pos c)) suffix
      ≡ (record { major = pos major; minor = pos minor; patch = pos c; suffix = suffix }, none)
unfolding new_patch
new_patch_of_itoa major minor c suffix h = ground (arith, atoi-itoa c h)

module _ (a b c : ℕ) (fits : (a ≤ max_int) × (b ≤ max_int) × (c ≤ max_int)) where
  new_without_suffix :
      new_numbers (itoa (pos a)) (itoa (pos b)) (itoa (pos c))
      ≡ (record { major = pos a; minor = pos b; patch = pos c; suffix = "" }, none)
  unfolding new_suffix
  new_without_suffix = rw (
    new_numbers_of_itoa a b (itoa (pos c)) fits.0 fits.1,
    split-Lacks b'-' (itoa (pos c)) (AllDigits-Lacks_dash _ (itoa-AllDigits c)),
    new_patch_of_itoa a b c "" fits.2,
  )

  new_with_suffix :
      (suffix : String)
      → Lacks b'-' suffix
      → new_numbers (itoa (pos a)) (itoa (pos b)) (itoa (pos c) ++ dash suffix)
        ≡ (record { major = pos a; minor = pos b; patch = pos c; suffix = suffix }, none)
  unfolding new_suffix
  new_with_suffix suffix h = rw (
    new_numbers_of_itoa a b (itoa (pos c) ++ dash suffix) fits.0 fits.1,
    split-append (itoa (pos c)) suffix "-" (AllDigits-Lacks_dash _ (itoa-AllDigits c)),
    split-Lacks b'-' suffix h,
    new_patch_of_itoa a b c suffix fits.2,
  )

itoa-Lacks_dot : (n : ℕ) → Lacks b'.' (itoa (pos n))
itoa-Lacks_dot n = AllDigits-Lacks_dot _ (itoa-AllDigits n)

new-printed :
    (a b c : ℕ) (suffix : String)
    → (a ≤ max_int) × (b ≤ max_int) × (c ≤ max_int)
    → Lacks b'.' suffix
    → Lacks b'-' suffix
    → new (to_string (record { major = pos a; minor = pos b; patch = pos c; suffix = suffix }))
      ≡ some (record { major = pos a; minor = pos b; patch = pos c; suffix = suffix }, none)
unfolding new to_string
new-printed a b c suffix fits no_dot no_dash = elim (Bool-cases (suffix == "")) [
  | inl none_given ↦
      let e = (eq_iff suffix "").0 none_given in
      rw (
        none_given,
        append-nil (itoa (pos c)),
        split_three _ _ _ (itoa-Lacks_dot a) (itoa-Lacks_dot b) (itoa-Lacks_dot c),
        new_without_suffix a b c fits,
        e,
      )
  | inr given ↦ rw (
    given,
    append-nil suffix,
    split_three _ _ (itoa (pos c) ++ dash suffix) (itoa-Lacks_dot a) (itoa-Lacks_dot b) (
        AllCodes-append (λ d. d ≢ b'.') (itoa (pos c)) (dash suffix) (itoa-Lacks_dot c)
          (omega arith, no_dot)),
    new_with_suffix a b c fits suffix no_dash,
  )
]

Number_path :
    (v : Number) (p : IsPrintable v)
    → record { major = pos p.major; minor = pos p.minor; patch = pos p.patch; suffix = v.suffix }
      ≡ v
Number_path v p = ground arith

-- A printable version is read back, without an error, as the same version.
pub new-to_string : (v : Number) → IsPrintable v → new (to_string v) ≡ some (v, none)
new-to_string v p =
    rw (← Number_path v p) (new-printed p.major p.minor p.patch v.suffix p.fits p.no_dot p.no_dash)
