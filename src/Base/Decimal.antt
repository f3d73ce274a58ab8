-- ===== src/Base/Decimal.antt =====
-- `strconv.Itoa` and `strconv.Atoi` of Go's standard library, for a 64-bit `int`.
pub mod RoundTrip
use Prim.Native.Nat.{ℕ, zero, suc, ◌+◌, ◌-◌, ◌*◌, ◌/◌, ◌%◌, ◌^◌}
use Prim.Native.Char.{Char, code}
use Prim.Native.String.{String, [], ◌∷◌, ◌++◌}
use mathlib.Core.Bool.{Bool, true, false, ◌&&◌}
use pango.Base.Quote.{quote}
use pango.Base.Tests.{ltb, leb, nat_eq, if◌then◌else◌}
use pango.Base.Int.{ℤ, pos, negsuc}

abbrev digit_char : ℕ → Char
digit_char zero = "0"
digit_char (suc zero) = "1"
digit_char (suc (suc zero)) = "2"
digit_char (suc (suc (suc zero))) = "3"
digit_char (suc (suc (suc (suc zero)))) = "4"
digit_char (suc (suc (suc (suc (suc zero))))) = "5"
digit_char (suc (suc (suc (suc (suc (suc zero)))))) = "6"
digit_char (suc (suc (suc (suc (suc (suc (suc zero))))))) = "7"
digit_char (suc (suc (suc (suc (suc (suc (suc (suc zero)))))))) = "8"
digit_char _ = "9"

-- The digits of `n` in front of `out`; fuel above `n` is enough.
digits : ℕ → ℕ → String → String
digits zero n out = out
digits (suc fuel) n out =
    let more = digits fuel (n / 10) (digit_char (n % 10) ∷ out) in if nat_eq n 0 then out else more

unfoldable pub itoa : ℤ → String
unfolding digits
itoa (pos zero) = "0"
itoa (pos (suc n)) = digits (suc (suc n)) (suc n) ""
itoa (negsuc n) = String.◌∷◌ "-" (digits (suc (suc n)) (suc n) "")

abbrev pub max_int : ℕ
max_int = 2 ^ 63 - 1

abbrev pub max_u64 : ℕ
max_u64 = 2 ^ 64 - 1

-- What a parser of numbers returns: the value, or one of strconv's two errors.
pub data Parsed (A : Type 0) : Type 0 where
  value : A → Parsed A
  bad_syntax out_of_range : Parsed A

-- The digits are read into a uint64, and the first fault from the left is the one reported.
scan : ℕ → String → Parsed ℕ
scan n [] = value n
scan n (c ∷ s) =
    let n' = n * 10 + (code c - 48) in
    if leb 48 (code c) && leb (code c) 57
    then (if leb n' max_u64 then scan n' s else out_of_range)
    else bad_syntax

scan_digits : String → Parsed ℕ
scan_digits [] = bad_syntax
scan_digits (c ∷ s) = scan 0 (c ∷ s)

abbrev signed : Bool → Parsed ℕ → Parsed ℤ
signed negative bad_syntax = bad_syntax
signed negative out_of_range = out_of_range
signed false (value n) = if leb n max_int then value (pos n) else out_of_range
signed true (value zero) = value (pos 0)
signed true (value (suc n)) = if leb n max_int then value (negsuc n) else out_of_range

unfoldable pub atoi : String → Parsed ℤ
unfolding scan scan_digits
atoi [] = bad_syntax
atoi (c ∷ s) =
    if nat_eq (code c) 45
    then signed true (scan_digits s)
    else if nat_eq (code c) 43
    then signed false (scan_digits s)
    else signed false (scan_digits (c ∷ s))

abbrev reason : Parsed ℤ → String
reason out_of_range = "value out of range"
reason _ = "invalid syntax"

-- The text of the error of `atoi`.
unfoldable pub atoi_error : String → String
unfolding atoi quote
atoi_error s = "strconv.Atoi: parsing " ++ quote s ++ ": " ++ reason (atoi s)
