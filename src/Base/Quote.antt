-- ===== src/Base/Quote.antt =====
-- `strconv.Quote`: the quote and the backslash are escaped. The program quotes names and settings;
-- the escapes of control characters are left out.
use Prim.Native.Char.{code}
use Prim.Native.String.{String, [], ◌∷◌, ◌++◌}
use mathlib.Core.Bool.{◌||◌}
use pango.Base.Tests.{nat_eq, if◌then◌else◌}

abbrev escape : String → String
escape [] = []
escape (c ∷ s) =
    let rest = escape s in
    if nat_eq (code c) 34 || nat_eq (code c) 92 then "\\" ++ (c ∷ rest) else c ∷ rest

unfoldable pub quote : String → String
quote s = "\"" ++ escape s ++ "\""
