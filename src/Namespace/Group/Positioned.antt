-- ===== src/Namespace/Group/Positioned.antt =====
-- Where `MoveGroup` puts the group.
use mathlib.Core.List.{append-nil}
use pango.Base.{
  String, List, [], ◌∷◌, ◌++◌, false, Option, none, some, Error, ◌≡◌, refl, sym, ap, subst, ◌∙◌,
  All, ◌==◌, elem, arith,
}
use pango.Namespace.Client.{Namespace}
use pango.Namespace.Group.{follow}
use pango.Namespace.Group.Find.{absent_of_distinct}
use pango.Namespace.Group.Gather.{AreNew, ArePresent, follow-Gathered}
use pango.Namespace.Device.{MovesRules}
use pango.Namespace.Device.Lists.{
  remove, remove_all, remove-append, remove_of_absent, remove-cons_ne, remove-cons_self,
  elem-append, elem-remove_ne, elem-remove_self, eq_comm,
}
use pango.Namespace.Device.Order.{Split}
use pango.Namespace.Write.Laws.{AreDistinct}

-- The outcome of a move that worked: no error, the group in one piece between `before` and
-- `behind`, of which `At` holds, and the other rules in the order that they had.
pub record Placed {S : Type 0} (rules : S → List String) (At : List String → List String → Type 0)
    (group old : List String) (result : Option (Option Error × S)) : Type 0 where
  pub state : S
  pub returned : result ≡ some (none, state)
  pub before : List String
  pub behind : List String
  pub whole : rules state ≡ before ++ group ++ behind
  pub others : before ++ behind ≡ remove_all group old
  pub place : At before behind

remove_all-append :
    (gs l m : List String) → remove_all gs (l ++ m) ≡ remove_all gs l ++ remove_all gs m
remove_all-append [] l m = refl
remove_all-append (g ∷ gs) l m =
    ap (remove_all gs) (remove-append g l m) ∙ remove_all-append gs (remove g l) (remove g m)

pub remove_all-nil : (gs : List String) → remove_all gs [] ≡ []
unfolding remove
remove_all-nil [] = refl
remove_all-nil (g ∷ gs) = remove_all-nil gs

pub remove_all-cons :
    (gs l : List String) (x : String)
    → elem x gs ≡ false
    → remove_all gs (x ∷ l) ≡ x ∷ remove_all gs l
remove_all-cons [] l x h = refl
remove_all-cons (g ∷ gs) l x h =
    ap (remove_all gs) (remove-cons_ne g x l (eq_comm x g (ground arith)))
    ∙ remove_all-cons gs (remove g l) x (ground arith)

pub remove_all-concat :
    (gs l : List String) (x : String)
    → elem x gs ≡ false
    → remove_all gs (l ++ x ∷ []) ≡ remove_all gs l ++ x ∷ []
remove_all-concat gs l x h =
    remove_all-append gs l (x ∷ [])
    ∙ ap (λ m. remove_all gs l ++ m)
        (remove_all-cons gs [] x h ∙ ap (λ m. x ∷ m) (remove_all-nil gs))

pub elem-remove_all :
    (gs l : List String) (x : String) → elem x gs ≡ false → elem x (remove_all gs l) ≡ elem x l
elem-remove_all [] l x h = refl
elem-remove_all (g ∷ gs) l x h =
    elem-remove_all gs (remove g l) x (ground arith) ∙ elem-remove_ne g x l (ground arith)

distinct_names_new :
    (first : String) (names : List String)
    → All (λ m. (m == first) ≡ false) names
    → AreNew ([] ++ first ∷ []) names
distinct_names_new first [] h = tt
distinct_names_new first (m ∷ names) h = (rw h.0, distinct_names_new first names h.1)

-- The list `l` once the rule `first` is in its place.
pub record FirstAt (first : String) (l new : List String) : Type 0 where
  pub before : List String
  pub behind : List String
  pub whole : new ≡ before ++ first ∷ behind
  pub unseen : elem first before ≡ false
  pub others : before ++ behind ≡ remove first l

absent_behind : (x : String) (b a : List String) → AreDistinct (b ++ x ∷ a) → elem x a ≡ false
absent_behind x [] a d = absent_of_distinct x a d.0
absent_behind x (y ∷ b) a d = absent_behind x b a d.1

pub others_of_split :
    (first : String) (l : List String)
    → AreDistinct l
    → (p : Split first l) → p.before ++ p.behind ≡ remove first l
others_of_split first l d p = sym (
    ap (remove first) p.whole
    ∙ remove-append first p.before (first ∷ p.behind)
    ∙ rw (
      remove-cons_self first p.behind,
      remove_of_absent first p.before p.new,
      remove_of_absent first p.behind
          (absent_behind first p.before p.behind (subst AreDistinct p.whole d)),
    ))

abbrev pub FirstAt_of_split :
    (first : String) (l : List String) → AreDistinct l → Split first l → FirstAt first l l
FirstAt_of_split first l d p = record {
  before = p.before;
  behind = p.behind;
  whole = p.whole;
  unseen = p.new;
  others = others_of_split first l d p;
}

pub unseen_before :
    (first : String) (l b a : List String) → remove first l ≡ b ++ a → elem first b ≡ false
unseen_before first l b a e =
    ground (arith, elem-append first b a, sym (ap (elem first) e) ∙ elem-remove_self first l)

elem_before-cons :
    (x y : String) (b a : List String) → (x == y) ≡ false → elem x (b ++ y ∷ a) ≡ elem x (b ++ a)
elem_before-cons x y b a h = ground (arith, elem-append x b (y ∷ a), elem-append x b a)

FirstAt-ArePresent :
    (first : String) (names l new : List String)
    → FirstAt first l new
    → All (λ m. (m == first) ≡ false) names
    → ArePresent names l
    → ArePresent names new
FirstAt-ArePresent first [] l new p d h = tt
FirstAt-ArePresent first (m ∷ names) l new p d h = (
  ap (elem m) p.whole
      ∙ elem_before-cons m first p.before p.behind d.0
      ∙ ap (elem m) p.others
      ∙ elem-remove_ne first m l d.0
      ∙ h.0,
  FirstAt-ArePresent first names l new p d.1 h.1,
)

module _ {S Data : Type 0} (n : Namespace S Data) (pather : String → List String)
    (rules : S → List String) (device : MovesRules n pather rules) where
  -- From the first rule's place to the group's.
  pub FirstAt-Placed :
      (At : List String → List String → Type 0) (first : String) (names : List String) (s s₁ : S)
      (p : FirstAt first (rules s) (rules s₁))
      → AreDistinct (first ∷ names)
      → ArePresent names (rules s)
      → At (remove_all names p.before) (remove_all names p.behind)
      → Placed rules At (first ∷ names) (rules s) (follow n (pather first) first names s₁)
  FirstAt-Placed At first names s s₁ p d here at =
      let e : rules s₁ ≡ p.before ++ [] ++ first ∷ p.behind = rw append-nil p.whole in
      let (s', r, w) =
        follow-Gathered n pather rules device names p.before [] p.behind first s₁ e p.unseen refl
          (distinct_names_new first names d.0) d.1
          (FirstAt-ArePresent first names (rules s) (rules s₁) p d.0 here) in
      record {
        state = s';
        returned = r;
        before = remove_all names p.before;
        behind = remove_all names p.behind;
        whole = w;
        others = sym (remove_all-append names p.before p.behind) ∙ ap (remove_all names) p.others;
        place = at;
      }
