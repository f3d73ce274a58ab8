-- ===== src/Poli/Rules/Moves.antt =====
-- Where `MoveGroup` of the packages of poli/ puts a group next to a rule.
use pango.Base.{String, List, ◌∷◌, Option, none, some, Error, ℤ, ◌≡◌, refl, arith}
use pango.Util.Move.{move_before, move_directly_before, move_after, move_directly_after}
use pango.Namespace.Client.{Namespace}
use pango.Namespace.Group as Group
use pango.Namespace.Device.{MovesRules}
use pango.Namespace.Group.Positioned.{Placed}
use pango.Namespace.Group.Laws.{AreApart}
use pango.Namespace.Group.Where.{
  RuleNext, RuleLast, RuleBehind, RuleBefore, directly_before_lem, before_lem, directly_after_lem,
  after_lem,
}
use pango.Poli.Rules.{Kind, entry_names, list_by, pather, lister, move_group}

-- The movements next to a rule.
pub data Beside : Type 0 where
  directly_before before directly_after after : Beside

abbrev pub movement_of : Beside → ℤ
movement_of directly_before = move_directly_before
movement_of before = move_before
movement_of directly_after = move_directly_after
movement_of after = move_after

-- What is asked of the rules before the group and behind it.
abbrev pub At : Beside → String → List String → List String → Type 0
At directly_before = RuleNext
At before = RuleBehind
At directly_after = RuleLast
At after = RuleBefore

module _ {S Data : Type 0} (n : Namespace S Data) (pather : String → List String) where
  same_position :
      (asked asked' : S → Option ((List String × Option Error) × S)) (movement : ℤ)
      (rule first : String) (path : List String) (s : S)
      → asked s ≡ asked' s
      → Group.position n asked movement rule first path s
        ≡ Group.position n asked' movement rule first path s
  unfolding Group.position
  same_position asked asked' movement rule first path s e = rw (e, Group.position) refl

  -- The lister is asked in the state of the call alone.
  same_lister :
      (asked asked' : S → Option ((List String × Option Error) × S)) (movement : ℤ)
      (rule first : String) (names : List String) (s : S)
      → asked s ≡ asked' s
      → Group.move_group n pather asked movement rule (first ∷ names) s
        ≡ Group.move_group n pather asked' movement rule (first ∷ names) s
  unfolding Group.move_group
  same_lister asked asked' movement rule first names s e =
      ground (arith, same_position asked asked' movement rule first (pather first) s e)

  placed :
      (rules : S → List String)
      → MovesRules n pather rules
      → (where_ : Beside) (rule first : String) (names : List String) (s : S)
      → AreApart rules rule first names s
      → Placed rules (At where_ rule) (first ∷ names) (rules s) (
          Group.move_group n pather
            (λ s. some ((rules s, none), s))
            (movement_of where_)
            rule
            (first ∷ names)
            s)
  placed rules device directly_before rule first names s h =
      directly_before_lem n pather rules device _ (λ s. refl) rule first names s h
  placed rules device before rule first names s h =
      before_lem n pather rules device _ (λ s. refl) rule first names s h
  placed rules device directly_after rule first names s h =
      directly_after_lem n pather rules device _ (λ s. refl) rule first names s h
  placed rules device after rule first names s h =
      after_lem n pather rules device _ (λ s. refl) rule first names s h

module _ {Entry Object Container S : Type 0} (kind : Kind Entry Object Container)
    (n : Namespace S Object) (unmarshal : String → Container → Option Error × Container)
    (xpath : List String → List String) (rules : S → List String)
    (device : MovesRules n (pather kind n unmarshal xpath) rules) where
  -- On a device that moves rules as documented, where `GetList` reads their order, for rules of a
  -- package of poli/ and a rule beside them that are all on the device, where no name stands twice
  -- and that rule has one: moved directly before the rule, before it, directly after it or after it,
  -- the group stands in one piece at that place, and the other rules keep their order; no error is
  -- returned.
  pub move_group-Placed :
      (where_ : Beside) (rule : String) (e : Entry) (es : List Entry) (s : S)
      → list_by kind n unmarshal xpath "get" s ≡ some ((none, some (rules s)), s)
      → AreApart rules rule (kind.name_of e) (entry_names kind es) s
      → Placed rules
          (At where_ rule)
          (entry_names kind (e ∷ es))
          (rules s)
          (move_group kind n unmarshal xpath (movement_of where_) rule (e ∷ es) s)
  unfolding move_group lister
  move_group-Placed where_ rule e es s read h =
      rw
        (same_lister n (pather kind n unmarshal xpath) (lister kind n unmarshal xpath)
          (λ s. some ((rules s, none), s)) (movement_of where_) rule (kind.name_of e)
          (entry_names kind es) s (rw read refl))
        (placed n (pather kind n unmarshal xpath) rules device where_ rule (kind.name_of e)
          (entry_names kind es) s h)
