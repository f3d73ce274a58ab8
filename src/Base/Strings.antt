-- ===== src/Base/Strings.antt =====
-- Go's `strings.Split`, `strings.Join` and `strings.Contains`, as far as the program uses them.
use Prim.Native.Nat.{ℕ}
use Prim.Native.Char.{Char, code}
use Prim.Native.String.{String, [], ◌∷◌, ◌++◌}
use mathlib.Core.Path.{◌≡◌, refl}
use mathlib.Core.Logic.{◌≢◌}
use mathlib.Core.Bool.{Bool, ◌||◌}
use mathlib.Core.List.{List}
use native.Mathlib.Omega.{arith}
use package.text.Mathlib.Text.{starts_with}
use package.text.Mathlib.TextLemmas.{nil-append, cons-append}
use pango.Base.Tests.{nat_eq, if◌then◌else◌}

abbrev pub AllCodes : (ℕ → Type 0) → String → Type 0
AllCodes P [] = Unit
AllCodes P (c ∷ s) = P (code c) × AllCodes P s

-- The text does not hold the separator.
abbrev pub Lacks : ℕ → String → Type 0
Lacks sep = AllCodes (λ c. c ≢ sep)

pub AllCodes-append :
    (P : ℕ → Type 0) (s t : String) → AllCodes P s → AllCodes P t → AllCodes P (s ++ t)
AllCodes-append P [] t hs ht = rw nil-append ht
AllCodes-append P (c ∷ s) t hs ht = rw cons-append (hs.0, AllCodes-append P s t hs.1 ht)

pub AllCodes-mono :
    (P Q : ℕ → Type 0) → ((c : ℕ) → P c → Q c) → (s : String) → AllCodes P s → AllCodes Q s
AllCodes-mono P Q f [] h = tt
AllCodes-mono P Q f (c ∷ s) h = (f (code c) h.0, AllCodes-mono P Q f s h.1)

push_front : Char → List String → List String
push_front c List.[] = List.◌∷◌ (c ∷ []) List.[]
push_front c (List.◌∷◌ p ps) = List.◌∷◌ (c ∷ p) ps

-- `strings.Split(s, sep)`, of a separator of one byte: never empty.
unfoldable pub split : ℕ → String → List String
unfolding push_front
split sep [] = List.◌∷◌ [] List.[]
split sep (c ∷ s) =
    let rest = split sep s in if nat_eq (code c) sep then List.◌∷◌ [] rest else push_front c rest

pub split-Lacks : (sep : ℕ) (s : String) → Lacks sep s → split sep s ≡ List.◌∷◌ s List.[]
unfolding split
split-Lacks sep [] h = refl
split-Lacks sep (c ∷ s) h = ground (arith, split-Lacks sep s h.1)

-- A first part ends at the first separator.
pub split-append :
    (s t : String) (c : Char)
    → Lacks (code c) s
    → split (code c) (s ++ c ∷ t) ≡ List.◌∷◌ s (split (code c) t)
unfolding split
split-append [] t c h = rw nil-append (ground arith)
split-append (d ∷ s) t c h = rw cons-append (ground (arith, split-append s t c h.1))

-- `strings.Join(parts, sep)`
unfoldable pub join : String → List String → String
join sep List.[] = []
join sep (List.◌∷◌ p List.[]) = p
join sep (List.◌∷◌ p (List.◌∷◌ q ps)) = p ++ sep ++ join sep (List.◌∷◌ q ps)

-- `strings.Contains(s, part)`
unfoldable pub contains : String → String → Bool
contains [] part = starts_with [] part
contains (c ∷ s) part = starts_with (c ∷ s) part || contains s part
