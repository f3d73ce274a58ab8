-- ===== src/Namespace/Group/Laws.antt =====
-- `MoveGroup` as a whole: which arguments it refuses, and where each movement puts the group.
use mathlib.Core.List.{append_assoc}
use pango.Base.{
  ℕ, String, List, [], ◌∷◌, ◌++◌, true, false, Option, none, some, Error, ◌≡◌, refl, sym, ap, ◌∙◌,
  ◌==◌, elem, arith, ℤ, int_eq, is_empty, if◌then◌else◌,
}
use pango.Util.Move.{move_skip, move_top, move_bottom}
use pango.Namespace.Client.{Namespace}
use pango.Namespace.Group.{
  follow, move_by_indexes, move_relative, move_first, position, group_error, move_group,
  moves_before, moves_after,
}
use pango.Namespace.Group.Find.{index_of, find_indexes_lem}
use pango.Namespace.Group.Gather.{ArePresent}
use pango.Namespace.Group.Positioned.{
  Placed, FirstAt, FirstAt_of_split, unseen_before, FirstAt-Placed,
}
use pango.Namespace.Device.{MovesRules}
use pango.Namespace.Device.Lists.{
  remove, remove_all, insert_after-append, insert_before-append, elem-remove_ne, eq_comm,
  insert_before, insert_after,
}
use pango.Namespace.Device.Order.{Split, split_at}
use pango.Namespace.Write.Laws.{AreDistinct}

-- The arguments of a move next to a rule: the group and the rule are on the device, no name
-- stands twice, and the rule is not one of the group.
pub record AreApart {S : Type 0} (rules : S → List String) (rule first : String)
    (names : List String) (s : S) : Type 0 where
  pub rule_named : (rule == "") ≡ false
  pub apart : (rule == first) ≡ false
  pub outside : elem rule names ≡ false
  pub distinct : AreDistinct (first ∷ names)
  pub listed : AreDistinct (rules s)
  pub rule_here : elem rule (rules s) ≡ true
  pub first_here : elem first (rules s) ≡ true
  pub names_here : ArePresent names (rules s)

module _ {S Data : Type 0} (n : Namespace S Data) (pather : String → List String)
    (rules : S → List String) (device : MovesRules n pather rules)
    (lister : S → Option ((List String × Option Error) × S))
    (lists : (s : S) → lister s ≡ some ((rules s, none), s)) where
  -- From the end of the positioning to the loop over the group.
  pub move_group_of_position :
      (movement : ℤ) (rule first : String) (names : List String) (s s₁ : S)
      → group_error n movement rule first ≡ none
      → int_eq movement move_skip ≡ false
      → position n lister movement rule first (pather first) s ≡ some (none, s₁)
      → move_group n pather lister movement rule (first ∷ names) s
        ≡ follow n (pather first) first names s₁
  unfolding move_group
  move_group_of_position movement rule first names s s₁ ok moves e = ground (arith, ok, moves, e)

  pub position_of_first :
      (movement : ℤ) (rule first : String) (s : S)
      → elem first (rules s) ≡ true
      → position n lister movement rule first (pather first) s
        ≡ some (move_first n movement rule first (pather first) (rules s) s)
  unfolding position
  position_of_first movement rule first s h = ground (arith, lists s, not_empty (rules s) h)
    where
      not_empty : (l : List String) → elem first l ≡ true → is_empty l ≡ false
      not_empty [] e = absurd (ground arith)
      not_empty (x ∷ l) e = refl

  module _ (rule first : String) (names : List String) (s : S)
      (h : AreApart rules rule first names s) where
    -- The first rule is moved only if the test on the positions asks for it.
    pub move_first_relative :
        (movement : ℤ) (f o : ℕ)
        → int_eq movement move_top ≡ false
        → int_eq movement move_bottom ≡ false
        → index_of first 0 (rules s) ≡ some f
        → index_of rule 0 (rules s) ≡ some o
        → move_first n movement rule first (pather first) (rules s) s ≡ (
            if moves_before movement f o
            then n.con.move (pather first) "before" rule s
            else if moves_after movement f o
            then n.con.move (pather first) "after" rule s
            else (none, s))
    unfolding move_first move_relative move_by_indexes
    move_first_relative movement f o top bottom ef eo = ground (
      arith,
      top,
      bottom,
      find_indexes_lem first rule 0 (rules s) (eq_comm rule first h.apart) h.listed,
      ef,
      eo,
    )

    -- In front of the rule, by a move.
    moved_before :
        (q : Split rule (remove first (rules s)))
        → ((n.con.move (pather first) "before" rule s).0 ≡ none)
          × (rules (n.con.move (pather first) "before" rule s).1
              ≡ q.before ++ first ∷ rule ∷ q.behind)
    moved_before q =
        let moved =
          device.before first rule s h.first_here h.rule_here (eq_comm rule first h.apart) in
        (
          moved.0,
          moved.1
              ∙ ap (insert_before rule first) q.whole
              ∙ insert_before-append rule first q.before q.behind q.new,
        )

    moved_after :
        (q : Split rule (remove first (rules s)))
        → ((n.con.move (pather first) "after" rule s).0 ≡ none)
          × (rules (n.con.move (pather first) "after" rule s).1
              ≡ q.before ++ rule ∷ first ∷ q.behind)
    moved_after q =
        let moved =
          device.after first rule s h.first_here h.rule_here (eq_comm rule first h.apart) in
        (
          moved.0,
          moved.1
              ∙ ap (insert_after rule first) q.whole
              ∙ insert_after-append rule first q.before q.behind q.new,
        )

    rule_without_first : Split rule (remove first (rules s))
    rule_without_first =
        split_at rule (remove first (rules s))
          (elem-remove_ne first rule (rules s) h.apart ∙ h.rule_here)

    -- The first rule in its place, with no error.
    pub record Outcome (movement : ℤ) (At : List String → List String → Type 0) : Type 0 where
      pub state : S
      pub done : move_first n movement rule first (pather first) (rules s) s ≡ (none, state)
      pub place : FirstAt first (rules s) (rules state)
      pub at : At place.before place.behind

    pair_eq : {A B : Type 0} (r : A × B) (a : A) → r.0 ≡ a → r ≡ (a, r.1)
    pair_eq r a e = λ i. (e i, r.1)

    pub Outcome_before :
        (movement : ℤ) (At : List String → List String → Type 0)
        → (move_first n movement rule first (pather first) (rules s) s
            ≡ n.con.move (pather first) "before" rule s)
        → ((b a : List String) → At b (rule ∷ a))
        → Outcome movement At
    Outcome_before movement At e at =
        let q = rule_without_first in
        let moved = moved_before q in
        record {
          state = (n.con.move (pather first) "before" rule s).1;
          done = e ∙ pair_eq (n.con.move (pather first) "before" rule s) none moved.0;
          place = record {
            before = q.before;
            behind = rule ∷ q.behind;
            whole = moved.1;
            unseen = unseen_before first (rules s) q.before (rule ∷ q.behind) q.whole;
            others = sym q.whole;
          };
          at = at q.before q.behind;
        }

    pub Outcome_after :
        (movement : ℤ) (At : List String → List String → Type 0)
        → (move_first n movement rule first (pather first) (rules s) s
            ≡ n.con.move (pather first) "after" rule s)
        → ((b a : List String) → At (b ++ rule ∷ []) a)
        → Outcome movement At
    Outcome_after movement At e at =
        let q = rule_without_first in
        let moved = moved_after q in
        let whole = q.whole ∙ sym (append_assoc q.before (rule ∷ []) q.behind) in
        record {
          state = (n.con.move (pather first) "after" rule s).1;
          done = e ∙ pair_eq (n.con.move (pather first) "after" rule s) none moved.0;
          place = record {
            before = q.before ++ rule ∷ [];
            behind = q.behind;
            whole = moved.1 ∙ sym (append_assoc q.before (rule ∷ []) (first ∷ q.behind));
            unseen = unseen_before first (rules s) (q.before ++ rule ∷ []) q.behind whole;
            others = sym whole;
          };
          at = at q.before q.behind;
        }

    -- The first rule is where it ought to be, and is not moved.
    pub Outcome_here :
        (movement : ℤ) (At : List String → List String → Type 0) (p : Split first (rules s))
        → (move_first n movement rule first (pather first) (rules s) s ≡ (none, s))
        → At p.before p.behind
        → Outcome movement At
    Outcome_here movement At p e at = record {
      state = s;
      done = e;
      place = FirstAt_of_split first (rules s) h.listed p;
      at = at;
    }

    pub Outcome-Placed :
        (movement : ℤ) (At At' : List String → List String → Type 0)
        → group_error n movement rule first ≡ none
        → int_eq movement move_skip ≡ false
        → ((b a : List String) → At b a → At' (remove_all names b) (remove_all names a))
        → Outcome movement At
        → Placed rules At'
            (first ∷ names)
            (rules s)
            (move_group n pather lister movement rule (first ∷ names) s)
    Outcome-Placed movement At At' ok moves keep r =
        rw
          (move_group_of_position movement rule first names s r.state ok moves
            (position_of_first movement rule first s h.first_here ∙ ap some r.done))
          (FirstAt-Placed n pather rules device At' first names s r.state r.place h.distinct
            h.names_here (keep r.place.before r.place.behind r.at))
