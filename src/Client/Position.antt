-- ===== src/Client/Position.antt =====
-- `PositionFirstEntity` of client.go. Its loop over the elements and its tests on the two indexes
-- are those of `MoveGroup`, word for word, and are shared here.
pub mod Laws
use pango.Base.{
  ℕ, String, List, [], ◌∷◌, Bool, Option, none, some, Error, errorf, str, int, ℤ, int_eq, ltb_ℤ,
  ◌==◌, not, ◌&&◌, ◌||◌, if◌then◌else◌,
}
use pango.Util.Move.{
  move_skip, move_before, move_directly_before, move_after, move_directly_after, move_top,
  move_bottom, relative_movement,
}
use pango.Namespace.Client.{XapiClient}
use pango.Namespace.Group.{Indexes, find_indexes, moves_before, moves_after, unless_says}

-- The checks of the arguments. No number is below `MoveSkip` and above `MoveBottom` at once.
unfoldable pub position_error : ℤ → String → String → Option Error
unfolding relative_movement
position_error mvt rel ent =
    if rel == ent
    then some (errorf "Can't position %q in relation to itself" (str rel ∷ []))
    else if ltb_ℤ mvt move_skip && ltb_ℤ move_bottom mvt
    then some (errorf "Invalid position int given: %d" (int mvt ∷ []))
    else if relative_movement mvt && rel == ""
    then some (errorf "Specify 'ref' in order to perform relative group positioning" [])
    else none

module _ {S Data : Type 0} (c : XapiClient S Data) where
  -- The checks of the two indexes, and the move if it is needed.
  unfoldable pub entity_by_indexes :
      ℤ → String → String → List String → Indexes → S → Option Error × S
  unfolding moves_before moves_after
  entity_by_indexes mvt rel ent path (none, o) s =
      (some (errorf "Entity to be moved %q does not exist" (str ent ∷ [])), s)
  entity_by_indexes mvt rel ent path (some f, none) s =
      (some (errorf "Reference entity %q does not exist" (str rel ∷ [])), s)
  entity_by_indexes mvt rel ent path (some f, some o) s =
      if moves_before mvt f o
      then c.move path "before" rel s
      else if moves_after mvt f o
      then c.move path "after" rel s
      else (none, s)

  -- The switch on the movement.
  unfoldable pub position_by_movement :
      ℤ → String → String → List String → List String → S → Option Error × S
  unfolding find_indexes
  position_by_movement mvt rel ent path elms s =
      if int_eq mvt move_skip
      then (none, s)
      else if int_eq mvt move_top
      then (let (em, s') = c.move path "top" "" s in (unless_says "already at the top" em, s'))
      else if int_eq mvt move_bottom
      then (let (em, s') = c.move path "bottom" "" s in
          (unless_says "already at the bottom" em, s'))
      else entity_by_indexes mvt rel ent path (find_indexes ent rel 0 elms (none, none)) s

  -- `PositionFirstEntity`
  unfoldable pub position_first_entity :
      ℤ → String → String → List String → List String → S → Option Error × S
  position_first_entity mvt rel ent path elms s = elim (position_error mvt rel ent) [
    | some e ↦ (some e, s)
    | none ↦ position_by_movement mvt rel ent path elms s
  ]
