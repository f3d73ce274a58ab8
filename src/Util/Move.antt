-- ===== src/Util/Move.antt =====
-- util/const.go and util/util.go: the places that a rule can be moved to. Every `Move` constant is
-- an `int`, and so is the argument of the tests.
use pango.Base.{ℤ, pos, int_eq, Bool, ◌||◌}

abbrev pub move_skip : ℤ
move_skip = pos 0

abbrev pub move_before : ℤ
move_before = pos 1

abbrev pub move_directly_before : ℤ
move_directly_before = pos 2

abbrev pub move_after : ℤ
move_after = pos 3

abbrev pub move_directly_after : ℤ
move_directly_after = pos 4

abbrev pub move_top : ℤ
move_top = pos 5

abbrev pub move_bottom : ℤ
move_bottom = pos 6

unfoldable pub relative_movement : ℤ → Bool
relative_movement v =
    int_eq v move_before
    || int_eq v move_directly_before
    || int_eq v move_after
    || int_eq v move_directly_after

unfoldable pub valid_movement : ℤ → Bool
valid_movement v =
    int_eq v move_skip
    || int_eq v move_before
    || int_eq v move_directly_before
    || int_eq v move_after
    || int_eq v move_directly_after
    || int_eq v move_top
    || int_eq v move_bottom
