-- ===== src/Base/Format.antt =====
-- `fmt.Sprintf` with the plain verbs %s, %d and %q, which are those that the program's messages use.
use Prim.Native.Char.{Char, code}
use Prim.Native.String.{String, [], ◌∷◌, ◌++◌}
use mathlib.Core.List.{List}
use pango.Base.Quote.{quote}
use pango.Base.Tests.{nat_eq, if◌then◌else◌}
use pango.Base.Int.{ℤ}
use pango.Base.Decimal.{itoa}

pub data Arg : Type 0 where
  str : String → Arg
  int : ℤ → Arg

-- An argument under a verb: `q` quotes, any other verb prints the value.
abbrev render : Char → Arg → String
render verb (str s) = if nat_eq (code verb) 113 then quote s else s
render verb (int n) = itoa n

-- A verb with no argument left prints as `%!v(MISSING)`, and a `%` at the end as `%!(NOVERB)`.
unfoldable pub sprintf : String → List Arg → String
unfolding quote itoa
sprintf [] args = []
sprintf (c ∷ []) args = if nat_eq (code c) 37 then "%!(NOVERB)" else c ∷ []
sprintf (c ∷ (v ∷ s)) List.[] =
    let plain = c ∷ sprintf (v ∷ s) List.[] in
    let after = sprintf s List.[] in
    if nat_eq (code c) 37
    then (if nat_eq (code v) 37 then "%" ++ after else "%!" ++ (v ∷ []) ++ "(MISSING)" ++ after)
    else plain
sprintf (c ∷ (v ∷ s)) (List.◌∷◌ a args) =
    let plain = c ∷ sprintf (v ∷ s) (List.◌∷◌ a args) in
    let escaped = sprintf s (List.◌∷◌ a args) in
    let after = sprintf s args in
    if nat_eq (code c) 37
    then (if nat_eq (code v) 37 then "%" ++ escaped else render v a ++ after)
    else plain
