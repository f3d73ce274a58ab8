-- ===== src/Util/Packaging.antt =====
-- `StripPanosPackaging` of util/util.go. The bytes of a response are a text here.
pub mod Laws
use Prim.Native.Char.{code}
use Prim.Native.String.{[], ◌∷◌, ◌++◌}
use package.text.Mathlib.Text.{starts_with}
use pango.Base.{
  ℕ, String, Bool, true, false, ◌&&◌, ◌||◌, Option, none, some, nat_eq, leb, if◌then◌else◌, ◌==◌,
  ◌>>=◌, not,
}

-- `unicode.IsSpace`
abbrev is_space : ℕ → Bool
is_space c =
    (leb 9 c && leb c 13)
    || nat_eq c 32
    || nat_eq c 0x85
    || nat_eq c 0xa0
    || nat_eq c 0x1680
    || (leb 0x2000 c && leb c 0x200a)
    || nat_eq c 0x2028
    || nat_eq c 0x2029
    || nat_eq c 0x202f
    || nat_eq c 0x205f
    || nat_eq c 0x3000

trim_left : String → String
trim_left [] = []
trim_left (c ∷ s) = let rest = trim_left s in if is_space (code c) then rest else c ∷ s

abbrev cons_unless_space : ℕ → String → String → String
cons_unless_space c whole [] = if is_space c then [] else whole
cons_unless_space c whole (d ∷ s) = whole

trim_right : String → String
trim_right [] = []
trim_right (c ∷ s) = let rest = trim_right s in cons_unless_space (code c) (c ∷ rest) rest

-- `bytes.TrimSpace`
unfoldable pub trim_space : String → String
unfolding trim_left trim_right
trim_space s = trim_right (trim_left s)

abbrev is_some : Option String → Bool
is_some none = false
is_some (some s) = true

-- `index = bytes.Index(s, ">"); s[index+1:]`: without the byte, the index is -1 and `s` is kept.
after_first : ℕ → String → Option String
after_first sep [] = none
after_first sep (c ∷ s) = if nat_eq (code c) sep then some s else after_first sep s

abbrev or_whole : String → Option String → String
or_whole s none = s
or_whole s (some t) = t

unfoldable pub after_gt : String → String
unfolding after_first
after_gt s = or_whole s (after_first b'>' s)

-- `index = bytes.LastIndex(s, "<"); s[:index]`: without the byte it panics.
unfoldable pub before_lt : String → Option String
before_lt [] = none
before_lt (c ∷ s) = elim (before_lt s) [
  | some t ↦ some (c ∷ t)
  | none ↦ if nat_eq (code c) b'<' then some [] else none
]

-- One round: an opening tag off the front, a closing tag off the end.
unfoldable pub strip_tag : String → Option String
unfolding after_gt before_lt
strip_tag s = before_lt (after_gt s)

abbrev pub opens : String → String → Bool
opens tag s = starts_with s ("<" ++ tag ++ " ") || starts_with s ("<" ++ tag ++ ">")

-- The optional third tag.
unfoldable pub strip_inner : String → String → Option String
strip_inner tag ans =
    if not (tag == "") && opens tag ans
    then (do inner ← strip_tag ans; some (trim_space inner))
    else some ans

-- `none` is the panic.
unfoldable pub strip_panos_packaging : String → String → Option String
strip_panos_packaging input tag = do
  response ← strip_tag input
  result ← strip_tag response
  strip_inner tag (trim_space result)
