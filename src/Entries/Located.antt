-- ===== src/Entries/Located.antt =====
-- Where the entries of a namespace stand: at the end of an xpath, under the name of their parent.
use pango.Base.{
  ℕ, ◌+◌, ◌-◌, String, List, [], ◌∷◌, ◌++◌, false, some, ◌≡◌, refl, sym, ap, ◌∙◌, ltb, length,
  length-append, get_elem?-append, arith,
}
use pango.Util.Xpath.{as_entry_xpath}
use pango.Namespace.Client.{second_last}
use pango.Entries.{called, called_by_path}
use pango.Entries.Stored.{under, IsLocated}

pub append_middle {ℓ} :
    {A : Type ℓ} (xs : List A) (y : A) (ys : List A) → (xs ++ y ∷ []) ++ ys ≡ xs ++ y ∷ ys
append_middle [] y ys = refl
append_middle (x ∷ xs) y ys = ap (λ r. x ∷ r) (append_middle xs y ys)

no_less : (n : ℕ) → ltb (n + 2) 2 ≡ false
no_less n = ground arith

add_two : (n : ℕ) → n + 2 - 2 ≡ n
add_two n = omega arith

second_last-append : (xs : List String) (y z : String) → second_last (xs ++ y ∷ z ∷ []) ≡ some y
unfolding second_last
second_last-append xs y z =
    rw (length-append xs (y ∷ z ∷ []), no_less (length xs), add_two (length xs))
      (get_elem?-append xs (z ∷ []) y)

module _ (xpath : List String → List String) (grand : List String) (tag : String)
    (path : (ns : List String) → xpath ns ≡ grand ++ tag ∷ as_entry_xpath ns ∷ []) where
  pub to_parent : (ns : List String) → xpath ns ≡ under (grand ++ tag ∷ []) ns
  to_parent ns = path ns ∙ sym (append_middle grand tag (as_entry_xpath ns ∷ []))

  -- A namespace whose `Set` names the parent, and one that takes the name from the path.
  abbrev pub located : IsLocated xpath (called tag)
  located = record { grand = grand; tag = tag; path = to_parent; labelled = λ ns. refl }

  pub located_by_path : IsLocated xpath called_by_path
  unfolding called_by_path second_last
  located_by_path = record {
    grand = grand;
    tag = tag;
    path = to_parent;
    labelled = λ ns. ap second_last (path ns) ∙ second_last-append grand tag (as_entry_xpath ns);
  }
