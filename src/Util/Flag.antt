-- ===== src/Util/Flag.antt =====
-- util/util.go: booleans as "yes" and "no".
use pango.Base.{String, ◌≡◌, refl, Bool, true, false, ◌==◌, if◌then◌else◌}

unfoldable pub yes_no : Bool → String
yes_no v = if v then "yes" else "no"

unfoldable pub as_bool : String → Bool
as_bool val = if val == "yes" then true else false

pub as_bool-yes_no : (b : Bool) → as_bool (yes_no b) ≡ b
unfolding as_bool yes_no
as_bool-yes_no true = refl
as_bool-yes_no false = refl
