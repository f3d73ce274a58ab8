-- ===== src/Namespace/Tests.antt =====
-- Runs of the namespace, and its theorems at concrete inputs.
use pango.Base.{
  ℕ, suc, String, List, [], ◌∷◌, Option, none, some, Error, panos_error, pos, ◌≡◌, refl, inl,
  message,
}
use pango.Util.Move.{move_directly_before, valid_movement, relative_movement}
use pango.Util.Xpath.{as_entry_xpath}
use pango.Namespace.Client.{Namespace, XapiClient, drop_last}
use pango.Namespace.Write.{set}
use pango.Namespace.Write.Laws.{to_entry, sent, set_of_distinct}
use pango.Namespace.Retrieve.{object, objects, listing, query}
use pango.Namespace.Retrieve.Laws.{missing_lem}
use pango.Namespace.Group.{
  move_group, set_last, follow, group_error, position, move_first, move_relative, move_by_indexes,
  find_indexes, moves_before, moves_after,
}
use pango.Namespace.Group.Laws.{AreApart}
use pango.Namespace.Group.Model.{namespace, pather, lister}
use pango.Namespace.Device.Lists.{remove, insert_before, insert_after}

abbrev order : List String
order = "a" ∷ "b" ∷ "c" ∷ "d" ∷ "e" ∷ []

-- "e" and "b" go in front of "c".
group_run :
    move_group namespace pather lister move_directly_before "c" ("e" ∷ "b" ∷ []) order
    ≡ some (none, "a" ∷ "e" ∷ "b" ∷ "c" ∷ "d" ∷ [])
unfolding move_group follow set_last group_error position move_first move_relative move_by_indexes
    find_indexes moves_before moves_after as_entry_xpath valid_movement relative_movement drop_last
    remove insert_before insert_after
group_run = refl

abbrev apart : AreApart (λ s. s) "c" "e" ("b" ∷ []) order
apart = record {
  rule_named = refl;
  apart = refl;
  outside = refl;
  distinct = ((refl, tt), (tt, tt));
  listed = (
    (refl, (refl, (refl, (refl, tt)))),
    ((refl, (refl, (refl, tt))), ((refl, (refl, tt)), ((refl, tt), (tt, tt)))),
  );
  rule_here = refl;
  first_here = refl;
  names_here = (refl, tt);
}

-- A client that counts its calls and answers every read with the given error.
abbrev failing : Error → XapiClient ℕ String
failing e = record {
  get = λ path s. (("", some e), suc s);
  show = λ path s. (("", some e), suc s);
  set = λ path element s. (none, suc s);
  edit = λ path object s. (none, suc s);
  delete = λ path s. (none, suc s);
  move = λ path where_ dst s. (none, suc s);
}

abbrev tags : Error → Namespace ℕ String
tags e = record { singular = "tag"; plural = "tags"; con = failing e }

abbrev read_all : String → List String → Option Error × List String
read_all text ans = (none, text ∷ ans)

abbrev missing : Error
missing = panos_error "Object not found" (pos 7)

abbrev refused : Error
refused = panos_error "Forbidden" (pos 16)

set_of_distinct_example :
    set
      (tags missing)
      ("t1" ∷ "t2" ∷ [])
      (to_entry ("config" ∷ []) "tag" "entry")
      ("x" ∷ "y" ∷ [])
      0
    ≡ some (sent (tags missing) ("config" ∷ []) "tag" ("x" ∷ "y" ∷ []) 0)
set_of_distinct_example =
    set_of_distinct (tags missing) ("t1" ∷ "t2" ∷ []) ("config" ∷ []) "tag" "entry" ("x" ∷ "y" ∷ [])
      0 ((refl, tt), (tt, tt))

missing_lem_example :
    (objects (tags missing) read_all "get" (to_entry ("config" ∷ []) "tag" "entry") [] 0
      ≡ some ((none, []), 1))
    × (listing (tags missing) read_all (λ a. a) "get" (to_entry ("config" ∷ []) "tag" "entry") [] 0
        ≡ some ((none, some []), 1))
    × (object (tags missing) read_all "get" (to_entry ("config" ∷ []) "tag" "entry") [] 0
        ≡ some ((some missing, []), 1))
unfolding message query
missing_lem_example =
    missing_lem (tags missing) read_all (λ a. a) "get" ("config" ∷ []) "tag" "entry" [] 0 1 ""
      missing (inl refl) refl (λ path. refl)
