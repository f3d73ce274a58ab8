-- ===== src/Namespace/Device/Lists.antt =====
-- Lists of rule names: taking a name out, and putting it next to another.
use pango.Base.{
  String, List, [], ◌∷◌, ◌++◌, false, ◌||◌, ◌≡◌, refl, ◌==◌, eq_iff, elem, if◌then◌else◌, arith,
}

unfoldable pub remove : String → List String → List String
remove x [] = []
remove x (y ∷ l) = let rest = remove x l in if x == y then rest else y ∷ rest

unfoldable pub insert_after : String → String → List String → List String
insert_after y x [] = []
insert_after y x (z ∷ l) = if y == z then z ∷ x ∷ l else z ∷ insert_after y x l

unfoldable pub insert_before : String → String → List String → List String
insert_before y x [] = []
insert_before y x (z ∷ l) = if y == z then x ∷ z ∷ l else z ∷ insert_before y x l

abbrev pub place_after : String → String → List String → List String
place_after y x l = insert_after y x (remove x l)

abbrev pub place_before : String → String → List String → List String
place_before y x l = insert_before y x (remove x l)

abbrev pub remove_all : List String → List String → List String
remove_all [] l = l
remove_all (g ∷ gs) l = remove_all gs (remove g l)

pub remove-append : (x : String) (l m : List String) → remove x (l ++ m) ≡ remove x l ++ remove x m
unfolding remove
remove-append x [] m = refl
remove-append x (y ∷ l) m = ground (arith, remove-append x l m)

pub remove_of_absent : (x : String) (l : List String) → elem x l ≡ false → remove x l ≡ l
unfolding remove
remove_of_absent x [] h = refl
remove_of_absent x (y ∷ l) h = ground (arith, remove_of_absent x l)

pub remove-cons_ne :
    (x y : String) (l : List String) → (x == y) ≡ false → remove x (y ∷ l) ≡ y ∷ remove x l
unfolding remove
remove-cons_ne x y l h = rw h

pub remove-cons_self : (x : String) (l : List String) → remove x (x ∷ l) ≡ remove x l
unfolding remove
remove-cons_self x l = ground (arith, eq_iff x x)

pub insert_after-append :
    (y x : String) (l m : List String)
    → elem y l ≡ false
    → insert_after y x (l ++ y ∷ m) ≡ l ++ y ∷ x ∷ m
unfolding insert_after
insert_after-append y x [] m h = ground (arith, eq_iff y y)
insert_after-append y x (z ∷ l) m h = ground (arith, insert_after-append y x l m)

pub insert_before-append :
    (y x : String) (l m : List String)
    → elem y l ≡ false
    → insert_before y x (l ++ y ∷ m) ≡ l ++ x ∷ y ∷ m
unfolding insert_before
insert_before-append y x [] m h = ground (arith, eq_iff y y)
insert_before-append y x (z ∷ l) m h = ground (arith, insert_before-append y x l m)

pub elem-append : (x : String) (l m : List String) → elem x (l ++ m) ≡ (elem x l || elem x m)
elem-append x [] m = refl
elem-append x (y ∷ l) m = ground (arith, elem-append x l m)

pub elem-remove_self : (x : String) (l : List String) → elem x (remove x l) ≡ false
unfolding remove
elem-remove_self x [] = refl
elem-remove_self x (y ∷ l) = ground (arith, elem-remove_self x l)

pub elem-remove_ne :
    (x z : String) (l : List String) → (z == x) ≡ false → elem z (remove x l) ≡ elem z l
unfolding remove
elem-remove_ne x z [] h = refl
elem-remove_ne x z (y ∷ l) h =
    ground (arith, elem-remove_ne x z l, eq_iff x y, eq_iff z x, eq_iff z y)

pub eq_comm : (s t : String) → (s == t) ≡ false → (t == s) ≡ false
eq_comm s t h = ground (arith, eq_iff s t, eq_iff t s)
