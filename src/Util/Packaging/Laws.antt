-- ===== src/Util/Packaging/Laws.antt =====
-- What is left of a response when its packaging is off.
use Prim.Native.Char.{Char, code}
use Prim.Native.String.{◌++◌}
use package.text.Mathlib.TextLemmas.{cons-append, nil-append}
use pango.Base.{◌≡◌, refl, arith, String, true, false, none, some, ◌==◌, ◌&&◌, not, ◌>>=◌, ℕ}
use pango.Base.Strings.{Lacks}
use pango.Util.Packaging.{
  after_first, before_lt, trim_space, strip_tag, opens, strip_inner, strip_panos_packaging,
}

after_first-append :
    (sep : ℕ) (s t : String) (c : Char)
    → Lacks (code c) s
    → after_first (code c) (s ++ String.◌∷◌ c t) ≡ some t
unfolding after_first
after_first-append sep String.[] t c h = rw nil-append (ground arith)
after_first-append sep (String.◌∷◌ d s) t c h =
    rw cons-append (ground (arith, after_first-append sep s t c h.1))

before_lt-Lacks : (s : String) → Lacks b'<' s → before_lt s ≡ none
unfolding before_lt
before_lt-Lacks String.[] h = refl
before_lt-Lacks (String.◌∷◌ c s) h = ground (arith, before_lt-Lacks s h.1)

before_lt-append : (s t : String) → Lacks b'<' t → before_lt (s ++ String.◌∷◌ "<" t) ≡ some s
unfolding before_lt
before_lt-append String.[] t h = rw nil-append (ground (arith, before_lt-Lacks t h))
before_lt-append (String.◌∷◌ c s) t h = rw cons-append (ground (arith, before_lt-append s t h))

-- A text between an opening and a closing tag.
abbrev pub wrapped : String → String → String → String
wrapped start body end = start ++ String.◌∷◌ ">" (body ++ String.◌∷◌ "<" end)

strip_tag-wrapped :
    (start body end : String)
    → Lacks b'>' start
    → Lacks b'<' end
    → strip_tag (wrapped start body end) ≡ some body
unfolding strip_tag
strip_tag-wrapped start body end h k =
    rw (after_first-append 0 start (body ++ String.◌∷◌ "<" end) ">" h) (before_lt-append body end k)

abbrev pub AreTags : String → String → Type 0
AreTags start end = Lacks b'>' start × Lacks b'<' end

strip_inner_of_opens :
    (tag ans : String)
    → (not (tag == "") && opens tag ans) ≡ true
    → strip_inner tag ans ≡ (strip_tag ans >>= λ inner. some (trim_space inner))
unfolding strip_inner
strip_inner_of_opens tag ans h = rw h

strip_inner_of_other :
    (tag ans : String) → (not (tag == "") && opens tag ans) ≡ false → strip_inner tag ans ≡ some ans
unfolding strip_inner
strip_inner_of_other tag ans h = rw h

-- The tags of the response and of the result are taken off whatever they hold, unless an opening
-- one holds `>` or a closing one holds `<` a second time, and the text between them comes back
-- without the space around it, if no third tag is asked for or the text does not open with that tag.
pub strip_panos_packaging-two :
    (s₁ e₁ s₂ e₂ body tag : String)
    → AreTags s₁ e₁
    → AreTags s₂ e₂
    → (not (tag == "") && opens tag (trim_space body)) ≡ false
    → strip_panos_packaging (wrapped s₁ (wrapped s₂ body e₂) e₁) tag ≡ some (trim_space body)
unfolding strip_panos_packaging
strip_panos_packaging-two s₁ e₁ s₂ e₂ body tag h₁ h₂ other = rw (
  strip_tag-wrapped s₁ (wrapped s₂ body e₂) e₁ h₁.0 h₁.1,
  strip_tag-wrapped s₂ body e₂ h₂.0 h₂.1,
  strip_inner_of_other tag (trim_space body) other,
)

-- If the text between the tags of the response and of the result, less the space around it, opens
-- with the tag that is asked for and is a text between two tags, the tags are taken off whatever
-- they hold, and the innermost text comes back without the space around it.
pub strip_panos_packaging-three :
    (s₁ e₁ s₂ e₂ s₃ e₃ body inner tag : String)
    → AreTags s₁ e₁
    → AreTags s₂ e₂
    → AreTags s₃ e₃
    → (not (tag == "") && opens tag (trim_space body)) ≡ true
    → trim_space body ≡ wrapped s₃ inner e₃
    → strip_panos_packaging (wrapped s₁ (wrapped s₂ body e₂) e₁) tag ≡ some (trim_space inner)
unfolding strip_panos_packaging
strip_panos_packaging-three s₁ e₁ s₂ e₂ s₃ e₃ body inner tag h₁ h₂ h₃ opened e = rw (
  strip_tag-wrapped s₁ (wrapped s₂ body e₂) e₁ h₁.0 h₁.1,
  strip_tag-wrapped s₂ body e₂ h₂.0 h₂.1,
  strip_inner_of_opens tag (trim_space body) opened,
  e,
  strip_tag-wrapped s₃ inner e₃ h₃.0 h₃.1,
)
