-- ===== src/Base/Decimal/RoundTrip.antt =====
-- A printed number is read back.
use Prim.Native.Nat.{ℕ, zero, suc, ◌+◌, ◌/◌, ◌%◌, ◌≤◌, ◌<◌}
use Prim.Native.Char.{code}
use Prim.Native.String.{String, [], ◌∷◌}
use mathlib.Core.Path.{◌≡◌, refl}
use mathlib.Core.Logic.{◌≢◌}
use native.Mathlib.Omega.{arith}
use text.Mathlib.TextLemmas.{cons≢nil}
use pango.Base.Int.{pos}
use pango.Base.Decimal.{digit_char, digits, itoa, scan, atoi, max_int, max_u64, value}

code-digit_char : (d : ℕ) → d < 10 → code (digit_char d) ≡ d + 48
code-digit_char zero h = refl
code-digit_char (suc zero) h = refl
code-digit_char (suc (suc zero)) h = refl
code-digit_char (suc (suc (suc zero))) h = refl
code-digit_char (suc (suc (suc (suc zero)))) h = refl
code-digit_char (suc (suc (suc (suc (suc zero))))) h = refl
code-digit_char (suc (suc (suc (suc (suc (suc zero)))))) h = refl
code-digit_char (suc (suc (suc (suc (suc (suc (suc zero))))))) h = refl
code-digit_char (suc (suc (suc (suc (suc (suc (suc (suc zero)))))))) h = refl
code-digit_char (suc (suc (suc (suc (suc (suc (suc (suc (suc zero))))))))) h = refl
code-digit_char (suc (suc (suc (suc (suc (suc (suc (suc (suc (suc n)))))))))) h =
    absurd (omega arith)

scan-digits :
    (fuel n : ℕ) (out : String) → n < fuel → n ≤ max_u64 → scan 0 (digits fuel n out) ≡ scan n out
unfolding scan digits
scan-digits zero n out h fits = elim h [ ]
scan-digits (suc fuel) n out h fits =
    ground (arith, scan-digits fuel (n / 10) (digit_char (n % 10) ∷ out), code-digit_char (n % 10))

digits-ne-nil : (fuel n : ℕ) (out : String) → out ≢ [] → digits fuel n out ≢ []
unfolding digits
digits-ne-nil zero n out h = h
digits-ne-nil (suc fuel) n out h = ground (
  arith,
  cons≢nil {x = digit_char (n % 10)} {xs = out},
  digits-ne-nil fuel (n / 10) (digit_char (n % 10) ∷ out),
)

abbrev pub IsDigit : ℕ → Type 0
IsDigit c = (48 ≤ c) × (c ≤ 57)

abbrev pub AllDigits : String → Type 0
AllDigits [] = Unit
AllDigits (c ∷ s) = IsDigit (code c) × AllDigits s

digits-AllDigits : (fuel n : ℕ) (out : String) → AllDigits out → AllDigits (digits fuel n out)
unfolding digits
digits-AllDigits zero n out h = h
digits-AllDigits (suc fuel) n out h =
    ground
      (arith, code-digit_char (n % 10), digits-AllDigits fuel (n / 10) (digit_char (n % 10) ∷ out))

pub itoa-AllDigits : (n : ℕ) → AllDigits (itoa (pos n))
unfolding itoa
itoa-AllDigits zero = omega arith
itoa-AllDigits (suc n) = digits-AllDigits (suc (suc n)) (suc n) [] tt

digits_step :
    (fuel n : ℕ) (out : String)
    → digits (suc fuel) (suc n) out ≡ digits fuel (suc n / 10) (digit_char (suc n % 10) ∷ out)
unfolding digits
digits_step zero n out = ground arith
digits_step (suc fuel) n out = ground arith

pub itoa-ne-nil : (n : ℕ) → itoa (pos n) ≢ []
unfolding itoa
itoa-ne-nil zero = cons≢nil
itoa-ne-nil (suc n) =
    rw (digits_step (suc n) n [])
      (digits-ne-nil (suc n) (suc n / 10) (digit_char (suc n % 10) ∷ []) cons≢nil)

scan-itoa : (n : ℕ) → n ≤ max_int → scan 0 (itoa (pos n)) ≡ value n
unfolding itoa scan
scan-itoa zero h = refl
scan-itoa (suc n) h = scan-digits (suc (suc n)) (suc n) [] (omega arith) (omega arith)

atoi_of_digits :
    (s : String) (n : ℕ)
    → s ≢ []
    → AllDigits s
    → scan 0 s ≡ value n
    → n ≤ max_int
    → atoi s ≡ value (pos n)
unfolding atoi
atoi_of_digits [] n h d e fits = absurd (h refl)
atoi_of_digits (c ∷ s) n h d e fits = ground arith

-- Every `int` that is not negative is read back from its print.
pub atoi-itoa : (n : ℕ) → n ≤ max_int → atoi (itoa (pos n)) ≡ value (pos n)
atoi-itoa n fits =
    atoi_of_digits (itoa (pos n)) n (itoa-ne-nil n) (itoa-AllDigits n) (scan-itoa n fits) fits
