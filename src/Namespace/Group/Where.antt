-- ===== src/Namespace/Group/Where.antt =====
-- Where each movement of `MoveGroup` puts the group.
use pango.Base.{
  ℕ, ◌+◌, ◌<◌, String, List, [], ◌∷◌, ◌++◌, Bool, true, false, Option, none, some, Error, ◌≡◌, refl,
  sym, ap, ◌∙◌, elem, arith, ℤ, int_eq, if◌then◌else◌, nat_eq, nat_eq_iff, Bool-cases, inl, inr,
  ltb, eq_refl, eq_iff, ◌||◌,
}
use pango.Util.Move.{
  move_before, move_directly_before, move_after, move_directly_after, move_top, move_bottom,
  valid_movement,
}
use pango.Namespace.Client.{Namespace}
use pango.Namespace.Group.{move_first, group_error, move_group, moves_before, moves_after}
use pango.Namespace.Group.Find.{index_of}
use pango.Namespace.Group.Positioned.{Placed, remove_all-cons, remove_all-concat, elem-remove_all}
use pango.Namespace.Group.Laws.{
  AreApart, Outcome, move_first_relative, Outcome_before, Outcome_after, Outcome_here,
  Outcome-Placed,
}
use pango.Namespace.Device.{MovesRules}
use pango.Namespace.Device.Lists.{elem-append, remove_all}
use pango.Namespace.Device.Order.{
  index_of_present, adjacent, adjacent_second, same_index, later, earlier,
}

-- The rule is the next one behind the group.
abbrev pub RuleNext : String → List String → List String → Type 0
RuleNext rule before behind = (a : List String) × (behind ≡ rule ∷ a)

-- The rule is the last one before the group.
abbrev pub RuleLast : String → List String → List String → Type 0
RuleLast rule before behind = (b : List String) × (before ≡ b ++ rule ∷ [])

abbrev pub RuleBehind : String → List String → List String → Type 0
RuleBehind rule before behind = elem rule behind ≡ true

abbrev pub RuleBefore : String → List String → List String → Type 0
RuleBefore rule before behind = elem rule before ≡ true

or_true : (b : Bool) → (b || true) ≡ true
or_true true = refl
or_true false = refl

module _ {S Data : Type 0} (n : Namespace S Data) (pather : String → List String)
    (rules : S → List String) (device : MovesRules n pather rules)
    (lister : S → Option ((List String × Option Error) × S))
    (lists : (s : S) → lister s ≡ some ((rules s, none), s)) (rule first : String)
    (names : List String) (s : S) (h : AreApart rules rule first names s) where
  relative_ok :
      (movement : ℤ) → valid_movement movement ≡ true → group_error n movement rule first ≡ none
  unfolding group_error
  relative_ok movement ok = ground (arith, h.apart, h.rule_named, ok)

  first_index : (f : ℕ) × (index_of first 0 (rules s) ≡ some f)
  first_index = index_of_present first 0 (rules s) h.first_here

  rule_index : (o : ℕ) × (index_of rule 0 (rules s) ≡ some o)
  rule_index = index_of_present rule 0 (rules s) h.rule_here

  -- What the positioning does, by the two positions.
  by_indexes :
      (movement : ℤ)
      → int_eq movement move_top ≡ false
      → int_eq movement move_bottom ≡ false
      → move_first n movement rule first (pather first) (rules s) s ≡ (
          if moves_before movement first_index.0 rule_index.0
          then n.con.move (pather first) "before" rule s
          else if moves_after movement first_index.0 rule_index.0
          then n.con.move (pather first) "after" rule s
          else (none, s))
  by_indexes movement top bottom =
      move_first_relative n pather rules device lister lists rule first names s h movement
        first_index.0 rule_index.0 top bottom first_index.1 rule_index.1

  directly_before-Outcome :
      Outcome n pather rules device lister lists rule first names s h move_directly_before
        (RuleNext rule)
  unfolding moves_before moves_after
  directly_before-Outcome = elim (Bool-cases (nat_eq (first_index.0 + 1) rule_index.0)) [
    | inl next ↦
        let (p, a, e) =
          adjacent first rule 0 first_index.0 (rules s) first_index.1
            (rule_index.1 ∙ ap some (sym ((nat_eq_iff (first_index.0 + 1) rule_index.0).0 next))) in
        Outcome_here n pather rules device lister lists rule first names s h move_directly_before
          (RuleNext rule) p (by_indexes move_directly_before refl refl ∙ rw next) (a, e)
    | inr apart ↦
        Outcome_before n pather rules device lister lists rule first names s h move_directly_before
          (RuleNext rule) (by_indexes move_directly_before refl refl ∙ rw apart) (λ b a. (a, refl))
  ]

  directly_after-Outcome :
      Outcome n pather rules device lister lists rule first names s h move_directly_after
        (RuleLast rule)
  unfolding moves_before moves_after
  directly_after-Outcome = elim (Bool-cases (nat_eq first_index.0 (rule_index.0 + 1))) [
    | inl next ↦
        let (p, b, e) =
          adjacent_second rule first 0 rule_index.0 (rules s) rule_index.1
            (first_index.1 ∙ ap some ((nat_eq_iff first_index.0 (rule_index.0 + 1)).0 next)) in
        Outcome_here n pather rules device lister lists rule first names s h move_directly_after
          (RuleLast rule) p (by_indexes move_directly_after refl refl ∙ rw next) (b, e)
    | inr apart ↦
        Outcome_after n pather rules device lister lists rule first names s h move_directly_after
          (RuleLast rule) (by_indexes move_directly_after refl refl ∙ rw apart) (λ b a. (b, refl))
  ]

  index_ne : first_index.0 ≡ rule_index.0 → ⊥
  index_ne e =
      let same =
        same_index first rule 0 first_index.0 (rules s) first_index.1
          (rule_index.1 ∙ ap some (sym e)) in
      ground (arith, h.apart, eq_iff rule first, same)

  before-Outcome :
      Outcome n pather rules device lister lists rule first names s h move_before (RuleBehind rule)
  unfolding moves_before moves_after
  before-Outcome = elim (Bool-cases (ltb rule_index.0 first_index.0)) [
    | inl apart ↦
        Outcome_before n pather rules device lister lists rule first names s h move_before
          (RuleBehind rule) (by_indexes move_before refl refl ∙ rw apart) (λ b a. rw (eq_refl rule))
    | inr first_before ↦
        let lt : first_index.0 < rule_index.0 = ground (arith, index_ne) in
        let (p, e) =
          later first rule 0 first_index.0 rule_index.0 (rules s) first_index.1 rule_index.1 lt in
        Outcome_here n pather rules device lister lists rule first names s h move_before
          (RuleBehind rule) p (by_indexes move_before refl refl ∙ rw first_before) e
  ]

  after-Outcome :
      Outcome n pather rules device lister lists rule first names s h move_after (RuleBefore rule)
  unfolding moves_before moves_after
  after-Outcome = elim (Bool-cases (ltb first_index.0 rule_index.0)) [
    | inl apart ↦
        Outcome_after n pather rules device lister lists rule first names s h move_after
          (RuleBefore rule) (by_indexes move_after refl refl ∙ rw apart)
          (λ b a. rw (elem-append rule b (rule ∷ []), eq_refl rule) (or_true (elem rule b)))
    | inr first_behind ↦
        let lt : rule_index.0 < first_index.0 = ground (arith, index_ne) in
        let (p, e) =
          earlier first rule 0 first_index.0 rule_index.0 (rules s) first_index.1 rule_index.1 lt in
        Outcome_here n pather rules device lister lists rule first names s h move_after
          (RuleBefore rule) p (by_indexes move_after refl refl ∙ rw first_behind) e
  ]

  -- On a device that moves rules as documented, with a lister that returns their order, for a group
  -- and a rule outside it that are on the device, where no name stands twice and the rule has one:
  -- moved directly before the rule, the group stands in one piece just before it, and the other
  -- rules keep their order; no error is returned.
  pub directly_before_lem :
      Placed rules
        (RuleNext rule)
        (first ∷ names)
        (rules s)
        (move_group n pather lister move_directly_before rule (first ∷ names) s)
  unfolding valid_movement
  directly_before_lem =
      Outcome-Placed n pather rules device lister lists rule first names s h move_directly_before
        (RuleNext rule) (RuleNext rule) (relative_ok move_directly_before refl) refl
        (λ b a next. (
          remove_all names next.0,
          ap (remove_all names) next.1 ∙ remove_all-cons names next.0 rule h.outside,
        ))
        directly_before-Outcome

  -- On a device that moves rules as documented, with a lister that returns their order, for a group
  -- and a rule outside it that are on the device, where no name stands twice and the rule has one:
  -- moved directly after the rule, the group stands in one piece just behind it, and the other rules
  -- keep their order; no error is returned.
  pub directly_after_lem :
      Placed rules
        (RuleLast rule)
        (first ∷ names)
        (rules s)
        (move_group n pather lister move_directly_after rule (first ∷ names) s)
  unfolding valid_movement
  directly_after_lem =
      Outcome-Placed n pather rules device lister lists rule first names s h move_directly_after
        (RuleLast rule) (RuleLast rule) (relative_ok move_directly_after refl) refl
        (λ b a next. (
          remove_all names next.0,
          ap (remove_all names) next.1 ∙ remove_all-concat names next.0 rule h.outside,
        ))
        directly_after-Outcome

  -- On a device that moves rules as documented, with a lister that returns their order, for a group
  -- and a rule outside it that are on the device, where no name stands twice and the rule has one:
  -- moved before the rule, the group stands in one piece with the rule somewhere behind it, and the
  -- other rules keep their order; no error is returned.
  pub before_lem :
      Placed rules
        (RuleBehind rule)
        (first ∷ names)
        (rules s)
        (move_group n pather lister move_before rule (first ∷ names) s)
  unfolding valid_movement
  before_lem =
      Outcome-Placed n pather rules device lister lists rule first names s h move_before
        (RuleBehind rule) (RuleBehind rule) (relative_ok move_before refl) refl
        (λ b a e. elem-remove_all names a rule h.outside ∙ e) before-Outcome

  -- On a device that moves rules as documented, with a lister that returns their order, for a group
  -- and a rule outside it that are on the device, where no name stands twice and the rule has one:
  -- moved after the rule, the group stands in one piece with the rule somewhere before it, and the
  -- other rules keep their order; no error is returned.
  pub after_lem :
      Placed rules
        (RuleBefore rule)
        (first ∷ names)
        (rules s)
        (move_group n pather lister move_after rule (first ∷ names) s)
  unfolding valid_movement
  after_lem =
      Outcome-Placed n pather rules device lister lists rule first names s h move_after
        (RuleBefore rule) (RuleBefore rule) (relative_ok move_after refl) refl
        (λ b a e. elem-remove_all names b rule h.outside ∙ e) after-Outcome
