-- ===== src/Namespace/Group.antt =====
-- `MoveGroup` of namespace/namespace.go: rules are placed behind one another, the first of them in
-- relation to another rule.
pub mod Find
pub mod Gather
pub mod Model
pub mod Ends
pub mod Where
pub mod Laws
pub mod Positioned
use pango.Base.{
  ℕ, suc, ◌+◌, ◌-◌, String, List, [], ◌∷◌, ◌++◌, Bool, true, false, Option, none, some, Error,
  errorf, str, int, message, ℤ, int_eq, ◌==◌, not, ◌&&◌, ◌||◌, nat_eq, ltb, is_empty, length,
  if◌then◌else◌, ◌>>=◌,
}
use pango.Util.Xpath.{as_entry_xpath}
use pango.Util.Move.{
  move_skip, move_before, move_directly_before, move_after, move_directly_after, move_top,
  move_bottom, valid_movement, relative_movement,
}
use pango.Namespace.Client.{Namespace, drop_last}

-- `fIdx` and `oIdx`, where `none` is -1.
abbrev pub Indexes : Type 0
Indexes = Option ℕ × Option ℕ

abbrev both_found : Indexes → Bool
both_found (some f, some o) = true
both_found _ = false

-- One round of the loop over the rules.
abbrev note_index : String → String → ℕ → String → Indexes → Indexes
note_index first rule i v (f, o) =
    if v == first then (some i, o) else if v == rule then (f, some i) else (f, o)

unfoldable pub find_indexes : String → String → ℕ → List String → Indexes → Indexes
find_indexes first rule i [] found = found
find_indexes first rule i (v ∷ vs) found =
    let found' = note_index first rule i v found in
    let more = find_indexes first rule (i + 1) vs found' in
    if both_found found' then found' else more

-- The tests on the two indexes: is a move needed, and to which side of the rule?
unfoldable pub moves_before : ℤ → ℕ → ℕ → Bool
moves_before movement f o =
    (int_eq movement move_before && ltb o f)
    || (int_eq movement move_directly_before && not (nat_eq (f + 1) o))

unfoldable pub moves_after : ℤ → ℕ → ℕ → Bool
moves_after movement f o =
    (int_eq movement move_after && ltb f o)
    || (int_eq movement move_directly_after && not (nat_eq f (o + 1)))

-- `em.Error() != "already at the ..."`
abbrev pub unless_says : String → Option Error → Option Error
unless_says text none = none
unless_says text (some e) = if message e == text then none else some e

-- `path[li] = x`, where `li` is the last index; an empty path panics.
unfoldable pub set_last : List String → String → Option (List String)
set_last path x = if is_empty path then none else some (drop_last 1 path ++ x ∷ [])

module _ {S Data : Type 0} (n : Namespace S Data) where
  -- The checks of the two indexes, and the move if it is needed.
  unfoldable pub move_by_indexes :
      ℤ → String → String → List String → Indexes → S → Option Error × S
  move_by_indexes movement rule first path (none, o) s =
      (some (errorf "First %s in group %q does not exist" (str n.singular ∷ str first ∷ [])), s)
  move_by_indexes movement rule first path (some f, none) s =
      (some (errorf "Reference %s %q does not exist" (str n.singular ∷ str rule ∷ [])), s)
  move_by_indexes movement rule first path (some f, some o) s =
      if moves_before movement f o
      then n.con.move path "before" rule s
      else if moves_after movement f o
      then n.con.move path "after" rule s
      else (none, s)

  -- The `default` case of the switch on the movement.
  unfoldable pub move_relative :
      ℤ → String → String → List String → List String → S → Option Error × S
  move_relative movement rule first path rules s =
      move_by_indexes movement rule first path (find_indexes first rule 0 rules (none, none)) s

  unfoldable pub move_first : ℤ → String → String → List String → List String → S → Option Error × S
  move_first movement rule first path rules s =
      if int_eq movement move_top
      then (let (em, s') = n.con.move path "top" "" s in (unless_says "already at the top" em, s'))
      else if int_eq movement move_bottom
      then (let (em, s') = n.con.move path "bottom" "" s in
          (unless_says "already at the bottom" em, s'))
      else move_relative movement rule first path rules s

  -- The loop that moves each rule after the one before it.
  unfoldable pub follow : List String → String → List String → S → Option (Option Error × S)
  follow path last [] s = some (none, s)
  follow path last (name ∷ names) s = do
    path' ← set_last path (as_entry_xpath (name ∷ []))
    let (err, s') = n.con.move path' "after" last s
    let rest = follow path' name names s'
    elim err [ some e ↦ some (some e, s') | none ↦ rest ]

  -- The checks of the arguments, in order.
  unfoldable pub group_error : ℤ → String → String → Option Error
  group_error movement rule first =
      if rule == first
      then some (errorf "Can't position %q in relation to itself" (str rule ∷ []))
      else if not (valid_movement movement)
      then some (errorf "Invalid movement specified: %d" (int movement ∷ []))
      else if relative_movement movement && rule == ""
      then some (errorf "Specify 'rule' in order to perform relative group positioning" [])
      else none

  -- The part under `movement != util.MoveSkip`; `none` is a panic of the lister.
  unfoldable pub position :
      (S → Option ((List String × Option Error) × S))
      → ℤ
      → String
      → String
      → List String
      → S
      → Option (Option Error × S)
  position lister movement rule first path s = do
    ((rules, err), s') ← lister s
    elim err [
      | some e ↦ some (some e, s')
      | none ↦
          if is_empty rules
          then some (some (errorf "No policies found" []), s')
          else some (move_first movement rule first path rules s')
    ]

  -- `MoveGroup`; `none` is a panic.
  unfoldable pub move_group :
      (String → List String)
      → (S → Option ((List String × Option Error) × S))
      → ℤ
      → String
      → List String
      → S
      → Option (Option Error × S)
  move_group pather lister movement rule [] s =
      some (some (errorf "Requires at least one %s" (str n.singular ∷ [])), s)
  move_group pather lister movement rule (first ∷ names) s =
      elim (group_error movement rule first) [
        | some e ↦ some (some e, s)
        | none ↦
            let path = pather first in
            (do
              (err, s') ←
                  (if int_eq movement move_skip
                    then some (none, s)
                    else position lister movement rule first path s)
              elim err [ some e ↦ some (some e, s') | none ↦ follow path first names s' ])
      ]
