-- ===== src/Util/Xpath/Names.antt =====
-- The names in an xpath segment can be read back, if none holds a quote.
use Prim.Native.String.{◌++◌}
use package.text.Mathlib.TextLemmas.{
  append_cancel_left, append_cancel_right, append-eq-nil_iff, cons≢nil, append-nil, append_assoc,
  cons-append, nil-append,
}
use pango.Base.{
  ℕ, ◌≡◌, ◌≢◌, sym, ◌∙◌, ap, arith, String, List, [], ◌∷◌, Bool, true, false, inl, inr, Bool-cases,
  eq_iff, ◌==◌, if◌then◌else◌, All,
}
use pango.Base.Strings.{Lacks, AllCodes-append, split, split-append, split-Lacks}
use pango.Util.Xpath.{as_entry_xpath, as_member_xpath, name_tests, any_name}

-- Every second part of a text that is split at its quotes.
abbrev pub odds : List String → List String
odds [] = []
odds (_ ∷ []) = []
odds (_ ∷ q ∷ ps) = q ∷ odds ps

-- A reader of xpath segments: what stands between quotes.
abbrev pub quoted_names : String → List String
quoted_names s = odds (split 39 s)

abbrev lead : Bool → String
lead first = if first then "" else " or "

quote-cons : (x : String) → "'" ++ x ≡ String.◌∷◌ "'" x
quote-cons x = rw cons-append (ap (λ y. String.◌∷◌ "'" y) (nil-append x))

eq_quote-cons : (x : String) → "='" ++ x ≡ "=" ++ String.◌∷◌ "'" x
eq_quote-cons x = append_assoc "=" "'" x ∙ ap (λ y. "=" ++ y) (quote-cons x)

name_tests-cons :
    (attribute : String) (first : Bool) (v : String) (vals : List String) (t : String)
    → name_tests attribute first (v ∷ vals) ++ t
      ≡ (lead first ++ attribute ++ "=")
        ++ String.◌∷◌ "'" (v ++ String.◌∷◌ "'" (name_tests attribute false vals ++ t))
unfolding name_tests
name_tests-cons attribute first v vals t =
    simp (append_assoc, eq_quote-cons, quote-cons, cons-append)

Lacks-lead : (first : Bool) → Lacks 39 (lead first)
Lacks-lead true = omega arith
Lacks-lead false = omega arith

abbrev NoQuote : ℕ → Type 0
NoQuote c = c ≢ 39

module _ (attribute : String) (plain : Lacks 39 attribute) where
  names_of_tests :
      (before : String) (first : Bool) (vals : List String)
      → Lacks 39 before
      → All (Lacks 39) vals
      → odds (split 39 (before ++ (name_tests attribute first vals ++ "]"))) ≡ vals
  unfolding name_tests
  names_of_tests before first [] h _ =
      rw (split-Lacks 39 (before ++ "]") (AllCodes-append NoQuote before "]" h (omega arith)))
  names_of_tests before first (v ∷ vals) h (hv, hs) =
      let before' : String = before ++ (lead first ++ attribute ++ "=") in
      let rest : String = name_tests attribute false vals ++ "]" in
      rw (
        name_tests-cons attribute first v vals "]",
        ← append_assoc before (lead first ++ attribute ++ "=")
            (String.◌∷◌ "'" (v ++ String.◌∷◌ "'" rest)),
        split-append before' (v ++ String.◌∷◌ "'" rest) "'" (
            AllCodes-append NoQuote before _ h (
              AllCodes-append NoQuote (lead first) _ (Lacks-lead first)
                (AllCodes-append NoQuote attribute "=" plain (omega arith)))),
        split-append v rest "'" hv,
        ← nil-append rest,
        names_of_tests "" false vals tt hs,
      )

-- The names in a member segment can be read back from it, if none holds a quote.
pub quoted_names-as_member_xpath :
    (vals : List String) → All (Lacks 39) vals → quoted_names (as_member_xpath vals) ≡ vals
unfolding as_member_xpath
quoted_names-as_member_xpath vals h =
    names_of_tests "text()" (omega arith) "member[" true vals (omega arith) h

-- The names in an entry segment can be read back from it, if none holds a quote and there is a
-- name that is not empty: no names, or the empty name alone, give the segment of every entry.
pub quoted_names-as_entry_xpath :
    (vals : List String)
    → All (Lacks 39) vals
    → any_name vals ≡ false
    → quoted_names (as_entry_xpath vals) ≡ vals
unfolding as_entry_xpath
quoted_names-as_entry_xpath vals h some_name =
    rw some_name (names_of_tests "@name" (omega arith) "entry[" true vals (omega arith) h)

joined_literal : (y : String) → "' or @name='" ++ y ≡ "'" ++ " or " ++ "@name" ++ "='" ++ y
joined_literal y =
    append_assoc "'" " or @name='" y
    ∙ ap (λ z. "'" ++ z) (append_assoc " or " "@name='" y)
    ∙ ap (λ z. "'" ++ " or " ++ z) (append_assoc "@name" "='" y)

eq-nil_of_quote : (s t : String) → ((s ++ "' or @name='" ++ t) == "") ≡ false
eq-nil_of_quote s t = elim (Bool-cases ((s ++ "' or @name='" ++ t) == "")) [
  | inl e ↦
      absurd
        (cons≢nil ((append-eq-nil_iff).0 ((append-eq-nil_iff {p = s}).0 ((eq_iff _ "").0 e)).1).0)
  | inr e ↦ e
]

-- Names are not escaped: a name that holds a quote can stand for two other names, whatever they
-- are, so that an xpath for one entry selects both of these.
pub as_entry_xpath_of_quote :
    (s t : String) → as_entry_xpath ((s ++ "' or @name='" ++ t) ∷ []) ≡ as_entry_xpath (s ∷ t ∷ [])
unfolding as_entry_xpath
as_entry_xpath_of_quote s t = rw (eq-nil_of_quote s t) (simp (append_assoc, joined_literal))

single_segment :
    (x : String)
    → (x == "") ≡ false
    → as_entry_xpath (x ∷ []) ≡ "entry[" ++ "@name" ++ "='" ++ x ++ "']"
unfolding as_entry_xpath
single_segment x named = rw named (simp (append_assoc, nil-append, append-nil))

entry_ne_segment : (x : String) → (x == "") ≡ false → as_entry_xpath (x ∷ []) ≢ "entry"
entry_ne_segment x named e =
    let e' = sym (single_segment x named) ∙ e in
    let e'' = sym (append_assoc "entry" "[" ("@name" ++ "='" ++ x ++ "']")) ∙ e' in
    cons≢nil
      (append-eq-nil_iff.0
        (append_cancel_left "entry" ("[" ++ "@name" ++ "='" ++ x ++ "']") "" e'')).0

segment_of_empty : (x : String) → (x == "") ≡ true → as_entry_xpath (x ∷ []) ≡ "entry"
unfolding as_entry_xpath
segment_of_empty x h = rw h

-- Two single names with the same entry segment are the same name.
pub as_entry_xpath_single :
    (s t : String) → as_entry_xpath (s ∷ []) ≡ as_entry_xpath (t ∷ []) → s ≡ t
as_entry_xpath_single s t e = elim (Bool-cases (s == "")) [
  | inl es ↦ elim (Bool-cases (t == "")) [
    | inl et ↦ (eq_iff s "").0 es ∙ sym ((eq_iff t "").0 et)
    | inr nt ↦ absurd (entry_ne_segment t nt (sym e ∙ segment_of_empty s es))
  ]
  | inr ns ↦ elim (Bool-cases (t == "")) [
    | inl et ↦ absurd (entry_ne_segment s ns (e ∙ segment_of_empty t et))
    | inr nt ↦
        let same = sym (single_segment s ns) ∙ e ∙ single_segment t nt in
        append_cancel_right s t "']" (
          append_cancel_left "='" _ _
            (append_cancel_left "@name" _ _ (append_cancel_left "entry[" _ _ same)))
  ]
]
