-- ===== src/Namespace/Group/Model.antt =====
-- A device that does what PAN-OS documents, with its rules for a state: the assumptions of
-- `MovesRules` can be met.
use pango.Base.{
  String, List, [], ◌∷◌, ◌++◌, Bool, true, false, Option, none, some, Error, plain, ◌≡◌, refl, sym,
  ◌∙◌, ap, ◌==◌, elem, eq_iff, eq_refl, arith, if◌then◌else◌, Bool-cases, inl, inr,
}
use pango.Util.Xpath.{as_entry_xpath}
use pango.Util.Xpath.Names.{as_entry_xpath_single}
use pango.Namespace.Client.{Namespace, XapiClient, drop_last}
use pango.Namespace.Group.{set_last}
use pango.Namespace.Device.{MovesRules}
use pango.Namespace.Device.Lists.{remove, place_after, place_before}

-- The rule that a path segment names.
abbrev named : String → List String → Option String
named segment [] = none
named segment (y ∷ l) = if as_entry_xpath (y ∷ []) == segment then some y else named segment l

abbrev pub last_segment : List String → String
last_segment [] = ""
last_segment (x ∷ []) = x
last_segment (x ∷ y ∷ l) = last_segment (y ∷ l)

-- The new order after a move that names a rule.
abbrev reorder : String → String → String → List String → List String
reorder where_ dst x rules =
    if where_ == "after"
    then place_after dst x rules
    else if where_ == "before"
    then place_before dst x rules
    else if where_ == "top"
    then x ∷ remove x rules
    else remove x rules ++ x ∷ []

abbrev moved : String → String → List String → Option String → Option Error × List String
moved where_ dst rules none = (some (plain "Object not found"), rules)
moved where_ dst rules (some x) = (none, reorder where_ dst x rules)

-- Reads are answered by an empty result; its objects may be of any type.
abbrev pub device_of : (Data : Type 0) → XapiClient (List String) Data
device_of Data = record {
  get = λ path s. (("<response><result></result></response>", none), s);
  show = λ path s. (("<response><result></result></response>", none), s);
  set = λ path element s. (none, s);
  edit = λ path object s. (none, s);
  delete = λ path s. (none, s);
  move = λ path where_ dst s. moved where_ dst s (named (last_segment path) s);
}

abbrev pub device : XapiClient (List String) String
device = device_of String

abbrev pub namespace_of : (Data : Type 0) → Namespace (List String) Data
namespace_of Data = record { singular = "rule"; plural = "rules"; con = device_of Data }

abbrev pub namespace : Namespace (List String) String
namespace = record { singular = "rule"; plural = "rules"; con = device }

abbrev pub pather : String → List String
pather v = "rules" ∷ as_entry_xpath (v ∷ []) ∷ []

abbrev pub lister : List String → Option ((List String × Option Error) × List String)
lister s = some ((s, none), s)

true≢false : ◌≡◌ {A = Bool} true false → ⊥
true≢false e = cc

differs :
    (x y : String) → (as_entry_xpath (y ∷ []) == as_entry_xpath (x ∷ [])) ≡ false → (x == y) ≡ false
differs x y ne = elim (Bool-cases (x == y)) [
  | inl e ↦ absurd (
      true≢false (
        sym (eq_refl (as_entry_xpath (x ∷ [])))
        ∙ ap (λ z. as_entry_xpath (z ∷ []) == as_entry_xpath (x ∷ [])) ((eq_iff x y).0 e)
        ∙ ne))
  | inr apart ↦ apart
]

named_self :
    (x : String) (l : List String) → elem x l ≡ true → named (as_entry_xpath (x ∷ [])) l ≡ some x
named_self x [] h = absurd (ground arith)
named_self x (y ∷ l) h = elim (Bool-cases (as_entry_xpath (y ∷ []) == as_entry_xpath (x ∷ []))) [
  | inl e ↦ rw e (ap some (as_entry_xpath_single y x ((eq_iff _ _).0 e)))
  | inr ne ↦ rw ne (named_self x l (ground (arith, differs x y ne)))
]

-- The device moves the rules of any paths that end in the segment of the rule.
pub device_of-MovesRules :
    {Data : Type 0} (pather : String → List String)
    → ((v : String) → last_segment (pather v) ≡ as_entry_xpath (v ∷ []))
    → ((v w : String) → set_last (pather v) (as_entry_xpath (w ∷ [])) ≡ some (pather w))
    → MovesRules (namespace_of Data) pather (λ s. s)
device_of-MovesRules pather ends paths = record {
  paths = paths;
  after = λ x y s hx hy ne. rw (ends x, named_self x s hx) (refl, refl);
  before = λ x y s hx hy ne. rw (ends x, named_self x s hx) (refl, refl);
  top = λ x s hx. rw (ends x, named_self x s hx) (refl, refl);
  bottom = λ x s hx. rw (ends x, named_self x s hx) (refl, refl);
}

pub device-MovesRules : MovesRules namespace pather (λ s. s)
unfolding set_last drop_last
device-MovesRules = device_of-MovesRules pather (λ v. refl) (λ v w. refl)
