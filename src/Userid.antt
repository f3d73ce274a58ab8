-- ===== src/Userid.antt =====
-- userid/: messages about users, and the tags of addresses and users. Maps are association lists.
pub mod IpTags
pub mod UserTags
pub mod Groups
pub mod Filled
pub mod Message
mod Tests
use pango.Base.{String, List, [], ◌∷◌, Option, none, some, ◌==◌, if◌then◌else◌}

-- `ans[k] = v`
unfoldable pub put : {V : Type 0} → String → V → List (String × V) → List (String × V)
put k v [] = (k, v) ∷ []
put k v ((j, w) ∷ m) = if j == k then (k, v) ∷ m else (j, w) ∷ put k v m

-- The loop over the entries of a response.
unfoldable pub put_all :
    {E V : Type 0} → (E → String) → (E → V) → List E → List (String × V) → List (String × V)
unfolding put
put_all key val [] ans = ans
put_all key val (e ∷ es) ans = put_all key val es (put (key e) (val e) ans)

-- The vsys of a request.
abbrev pub vsys_or_default : String → String
vsys_or_default vsys = if vsys == "" then "vsys1" else vsys
