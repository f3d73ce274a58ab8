-- ===== src/Client/Position/Laws.antt =====
-- `PositionFirstEntity` against `MoveGroup`.
use pango.Base.{
  ℕ, String, List, [], ◌∷◌, true, false, Option, none, some, Error, ℤ, pos, negsuc, int_eq, ltb_ℤ,
  ◌≡◌, refl, sym, ap, ◌∙◌, ◌==◌, ◌&&◌, is_empty, arith,
}
use pango.Util.Move.{move_skip, move_bottom, valid_movement}
use pango.Namespace.Client.{Namespace, XapiClient}
use pango.Namespace.Group.{
  find_indexes, moves_before, moves_after, move_by_indexes, move_relative, move_first, position,
  group_error, follow, move_group,
}
use pango.Client.Position.{
  position_error, entity_by_indexes, position_by_movement, position_first_entity,
}

never_invalid : (mvt : ℤ) → (ltb_ℤ mvt move_skip && ltb_ℤ move_bottom mvt) ≡ false
never_invalid (pos n) = ground arith
never_invalid (negsuc n) = ground arith

position_error_ok :
    (mvt : ℤ) (rel ent : String)
    → (rel == ent) ≡ false
    → (rel == "") ≡ false
    → position_error mvt rel ent ≡ none
unfolding position_error
position_error_ok mvt rel ent apart named = ground (arith, never_invalid mvt)

-- Both entities stand in the list.
abbrev pub AreFound : String → String → List String → Type 0
AreFound rel ent elms =
    (f : ℕ) × (o : ℕ) × (find_indexes ent rel 0 elms (none, none) ≡ (some f, some o))

module _ {S Data : Type 0} (n : Namespace S Data) (pather : String → List String)
    (lister : S → Option ((List String × Option Error) × S)) (elms : List String) (s : S)
    (lists : lister s ≡ some ((elms, none), s)) where
  by_movement :
      (mvt : ℤ) (rel ent : String)
      → int_eq mvt move_skip ≡ false
      → AreFound rel ent elms
      → position_by_movement n.con mvt rel ent (pather ent) elms s
        ≡ move_first n mvt rel ent (pather ent) elms s
  unfolding position_by_movement entity_by_indexes move_first move_relative move_by_indexes
  by_movement mvt rel ent skip (f, o, e) = ground (arith, skip, e)

  group_ok :
      (mvt : ℤ) (rel ent : String)
      → valid_movement mvt ≡ true
      → (rel == ent) ≡ false
      → (rel == "") ≡ false
      → group_error n mvt rel ent ≡ none
  unfolding group_error
  group_ok mvt rel ent valid apart named = ground arith

  not_empty : (rel ent : String) (l : List String) → AreFound rel ent l → is_empty l ≡ false
  unfolding find_indexes
  not_empty rel ent [] (f, o, e) = absurd (ground arith)
  not_empty rel ent (x ∷ l) found = refl

  position_lem :
      (mvt : ℤ) (rel ent : String)
      → AreFound rel ent elms
      → position n lister mvt rel ent (pather ent) s
        ≡ some (move_first n mvt rel ent (pather ent) elms s)
  unfolding position
  position_lem mvt rel ent found = ground (arith, lists, not_empty rel ent elms found)

  group_of_one :
      (mvt : ℤ) (rel ent : String) (r : Option Error × S)
      → group_error n mvt rel ent ≡ none
      → int_eq mvt move_skip ≡ false
      → position n lister mvt rel ent (pather ent) s ≡ some r
      → move_group n pather lister mvt rel (ent ∷ []) s ≡ some r
  unfolding move_group follow
  group_of_one mvt rel ent (none, s') ok skip e = ground (arith, ok, skip, e)
  group_of_one mvt rel ent (some err, s') ok skip e = ground (arith, ok, skip, e)

  entity_lem :
      (mvt : ℤ) (rel ent : String)
      → int_eq mvt move_skip ≡ false
      → (rel == ent) ≡ false
      → (rel == "") ≡ false
      → AreFound rel ent elms
      → position_first_entity n.con mvt rel ent (pather ent) elms s
        ≡ move_first n mvt rel ent (pather ent) elms s
  unfolding position_first_entity
  entity_lem mvt rel ent skip apart named found =
      ground (arith, position_error_ok mvt rel ent apart named, by_movement mvt rel ent skip found)

  -- One entity is positioned just as `MoveGroup` positions a group of one, for every movement that
  -- is valid and is not the one that skips, where the list holds both entities, which are not the
  -- same, and the other one has a name.
  pub position_first_entity-move_group :
      (mvt : ℤ) (rel ent : String)
      → valid_movement mvt ≡ true
      → int_eq mvt move_skip ≡ false
      → (rel == ent) ≡ false
      → (rel == "") ≡ false
      → AreFound rel ent elms
      → move_group n pather lister mvt rel (ent ∷ []) s
        ≡ some (position_first_entity n.con mvt rel ent (pather ent) elms s)
  position_first_entity-move_group mvt rel ent valid skip apart named found =
      group_of_one mvt rel ent _ (group_ok mvt rel ent valid apart named) skip (
        position_lem mvt rel ent found
        ∙ ap some (sym (entity_lem mvt rel ent skip apart named found)))

module _ {S Data : Type 0} (c : XapiClient S Data) where
  -- A number that is no movement is not refused, although the code checks for it: where the list
  -- holds both entities, which are not the same, and the other one has a name, no error is
  -- returned, and nothing is moved.
  pub position_first_entity_of_invalid :
      (mvt : ℤ) (rel ent : String) (path elms : List String) (s : S)
      → valid_movement mvt ≡ false
      → (rel == ent) ≡ false
      → (rel == "") ≡ false
      → AreFound rel ent elms
      → position_first_entity c mvt rel ent path elms s ≡ (none, s)
  unfolding position_first_entity position_by_movement entity_by_indexes valid_movement moves_before
      moves_after
  position_first_entity_of_invalid mvt rel ent path elms s invalid apart named (f, o, e) =
      ground (arith, position_error_ok mvt rel ent apart named, e, invalid)
