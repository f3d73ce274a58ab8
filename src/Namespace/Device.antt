-- ===== src/Namespace/Device.antt =====
-- What a namespace relies on when it moves rules: the order of the rules on the device, which is
-- not part of this repository, and the effect that PAN-OS documents for its `move` command.
pub mod Lists
pub mod Order
use pango.Base.{
  String, List, [], ◌∷◌, ◌++◌, Bool, true, false, Option, none, some, Error, ◌≡◌, ◌==◌, elem,
  if◌then◌else◌,
}
use pango.Util.Xpath.{as_entry_xpath}
use pango.Namespace.Client.{Namespace}
use pango.Namespace.Group.{set_last, unless_says}
use Lists.{remove, place_after, place_before}

-- `rules` reads the order off the state. A rule that is on the device is moved next to another
-- one, or to an end, without an error, or with the one that says that it is there already.
pub record MovesRules {S Data : Type 0} (n : Namespace S Data) (pather : String → List String)
    (rules : S → List String) : Type 0 where
  pub paths : (v w : String) → set_last (pather v) (as_entry_xpath (w ∷ [])) ≡ some (pather w)
  pub after :
      (x y : String) (s : S)
      → elem x (rules s) ≡ true
      → elem y (rules s) ≡ true
      → (x == y) ≡ false
      → ((n.con.move (pather x) "after" y s).0 ≡ none)
        × (rules (n.con.move (pather x) "after" y s).1 ≡ place_after y x (rules s))
  pub before :
      (x y : String) (s : S)
      → elem x (rules s) ≡ true
      → elem y (rules s) ≡ true
      → (x == y) ≡ false
      → ((n.con.move (pather x) "before" y s).0 ≡ none)
        × (rules (n.con.move (pather x) "before" y s).1 ≡ place_before y x (rules s))
  pub top :
      (x : String) (s : S)
      → elem x (rules s) ≡ true
      → (unless_says "already at the top" (n.con.move (pather x) "top" "" s).0 ≡ none)
        × (rules (n.con.move (pather x) "top" "" s).1 ≡ x ∷ remove x (rules s))
  pub bottom :
      (x : String) (s : S)
      → elem x (rules s) ≡ true
      → (unless_says "already at the bottom" (n.con.move (pather x) "bottom" "" s).0 ≡ none)
        × (rules (n.con.move (pather x) "bottom" "" s).1 ≡ remove x (rules s) ++ x ∷ [])
