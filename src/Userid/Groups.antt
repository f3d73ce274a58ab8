-- ===== src/Userid/Groups.antt =====
-- userid/groups.go: the lists of groups and of their members, read off the lines of a text.
--
-- `op` is `Op` of the client, which gives the text of the result, or the empty one beside an error.
use package.text.Mathlib.Text.{starts_with}
use pango.Base.{String, List, [], ◌∷◌, Option, none, some, Error, ◌==◌, if◌then◌else◌}
use pango.Base.Strings.{split}
use pango.Util.Packaging.{trim_space}
use pango.Userid.{vsys_or_default}

-- `groupListReq`, with the value of the entry of its style, and `groupMembersReq`.
pub data Request : Type 0 where
  group_list : Option String → Request
  group_members : String → Request

-- The loop of `GetGroups`: up to the line of the total, the lines that are not blank.
unfoldable pub groups_of : List String → List String
unfolding trim_space
groups_of [] = []
groups_of (line ∷ lines) =
    let val = trim_space line in
    let rest = groups_of lines in
    if val == "" then rest else if starts_with val "Total: " then [] else val ∷ rest

abbrev member_of : List String → List String → List String
unfolding trim_space
member_of (a ∷ b ∷ []) rest = trim_space b ∷ rest
member_of _ rest = rest

-- The loop of `GetGroupMembers`: what follows the only bracket of a line.
unfoldable pub members_of : List String → List String
unfolding member_of split
members_of [] = []
members_of (line ∷ lines) = member_of (split b']' line) (members_of lines)

abbrev lines_or_error :
    {S : Type 0}
    → (List String → List String)
    → (Option Error × String) × S
    → (Option Error × Option (List String)) × S
unfolding split
lines_or_error read ((some e, text), s) = ((some e, none), s)
lines_or_error read ((none, text), s) = ((none, some (read (split 10 text))), s)

module _ {S : Type 0} (op : Request → String → S → (Option Error × String) × S) where
  -- `GetGroups`
  unfoldable pub get_groups : String → String → S → (Option Error × Option (List String)) × S
  unfolding groups_of lines_or_error
  get_groups style vsys s =
      lines_or_error groups_of
        (op (group_list (if style == "" then none else some style)) (vsys_or_default vsys) s)

  -- `GetGroupMembers`
  unfoldable pub get_group_members : String → String → S → (Option Error × Option (List String)) × S
  unfolding members_of lines_or_error
  get_group_members group vsys s =
      lines_or_error members_of (op (group_members group) (vsys_or_default vsys) s)
