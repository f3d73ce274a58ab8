-- ===== src/Namespace/Group/Ends.antt =====
-- `MoveGroup` to the top and to the bottom.
use mathlib.Core.List.{append-nil}
use pango.Base.{
  String, List, [], ◌∷◌, true, false, Option, none, some, Error, ◌≡◌, refl, ap, ◌∙◌, ◌==◌, elem,
  arith, ℤ,
}
use pango.Util.Move.{move_top, move_bottom, valid_movement, relative_movement}
use pango.Namespace.Client.{Namespace}
use pango.Namespace.Group.{move_first, group_error, move_group}
use pango.Namespace.Group.Positioned.{Placed, FirstAt, FirstAt-Placed, remove_all-nil}
use pango.Namespace.Group.Laws.{move_group_of_position, position_of_first}
use pango.Namespace.Group.Gather.{ArePresent}
use pango.Namespace.Device.{MovesRules}
use pango.Namespace.Device.Lists.{remove, elem-remove_self}
use pango.Namespace.Write.Laws.{AreDistinct}

abbrev pub NothingBefore : List String → List String → Type 0
NothingBefore before behind = before ≡ []

abbrev pub NothingBehind : List String → List String → Type 0
NothingBehind before behind = behind ≡ []

module _ {S Data : Type 0} (n : Namespace S Data) (pather : String → List String)
    (rules : S → List String) (device : MovesRules n pather rules)
    (lister : S → Option ((List String × Option Error) × S))
    (lists : (s : S) → lister s ≡ some ((rules s, none), s)) (rule first : String)
    (names : List String) (s : S) (apart : (rule == first) ≡ false)
    (distinct : AreDistinct (first ∷ names)) (first_here : elem first (rules s) ≡ true)
    (names_here : ArePresent names (rules s)) where
  at_top : FirstAt first (rules s) (rules (n.con.move (pather first) "top" "" s).1)
  at_top = record {
    before = [];
    behind = remove first (rules s);
    whole = (device.top first s first_here).1;
    unseen = refl;
    others = refl;
  }

  at_bottom : FirstAt first (rules s) (rules (n.con.move (pather first) "bottom" "" s).1)
  at_bottom = record {
    before = remove first (rules s);
    behind = [];
    whole = (device.bottom first s first_here).1;
    unseen = elem-remove_self first (rules s);
    others = append-nil (remove first (rules s));
  }

  move_first_top :
      move_first n move_top rule first (pather first) (rules s) s
      ≡ (none, (n.con.move (pather first) "top" "" s).1)
  unfolding move_first
  move_first_top =
      λ i. ((device.top first s first_here).0 i, (n.con.move (pather first) "top" "" s).1)

  move_first_bottom :
      move_first n move_bottom rule first (pather first) (rules s) s
      ≡ (none, (n.con.move (pather first) "bottom" "" s).1)
  unfolding move_first
  move_first_bottom =
      λ i. ((device.bottom first s first_here).0 i, (n.con.move (pather first) "bottom" "" s).1)

  end_ok :
      (movement : ℤ)
      → valid_movement movement ≡ true
      → relative_movement movement ≡ false
      → group_error n movement rule first ≡ none
  unfolding group_error
  end_ok movement ok absolute = ground (arith, apart, ok, absolute)

  -- On a device that moves rules as documented, with a lister that returns their order, for a group
  -- of distinct rules that are on the device, whose first is not the rule that is named beside:
  -- moved to the top, the group stands in one piece before all other rules, and these keep their
  -- order; no error is returned, also where the device says that the first rule is there already.
  pub top_lem :
      Placed rules NothingBefore
        (first ∷ names)
        (rules s)
        (move_group n pather lister move_top rule (first ∷ names) s)
  unfolding valid_movement relative_movement
  top_lem =
      rw
        (move_group_of_position n pather rules device lister lists move_top rule first names s
          (n.con.move (pather first) "top" "" s).1 (end_ok move_top refl refl) refl
          (position_of_first n pather rules device lister lists move_top rule first s first_here
            ∙ ap some move_first_top))
        (FirstAt-Placed n pather rules device NothingBefore first names s
          (n.con.move (pather first) "top" "" s).1 at_top distinct names_here
          (unfold at_top in remove_all-nil names))

  -- On a device that moves rules as documented, with a lister that returns their order, for a group
  -- of distinct rules that are on the device, whose first is not the rule that is named beside:
  -- moved to the bottom, the group stands in one piece behind all other rules, and these keep their
  -- order; no error is returned, also where the device says that the first rule is there already.
  pub bottom_lem :
      Placed rules NothingBehind
        (first ∷ names)
        (rules s)
        (move_group n pather lister move_bottom rule (first ∷ names) s)
  unfolding valid_movement relative_movement
  bottom_lem =
      rw
        (move_group_of_position n pather rules device lister lists move_bottom rule first names s
          (n.con.move (pather first) "bottom" "" s).1 (end_ok move_bottom refl refl) refl
          (position_of_first n pather rules device lister lists move_bottom rule first s first_here
            ∙ ap some move_first_bottom))
        (FirstAt-Placed n pather rules device NothingBehind first names s
          (n.con.move (pather first) "bottom" "" s).1 at_bottom distinct names_here
          (unfold at_bottom in remove_all-nil names))
