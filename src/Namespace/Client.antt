-- ===== src/Namespace/Client.antt =====
-- namespace/namespace.go and util/xapiclient.go: the namespace and the client that it calls.
use pango.Base.{
  String, List, [], ◌∷◌, Option, none, Error, ℕ, ◌-◌, length, take, ltb, get_elem?, if◌then◌else◌,
  ◌++◌, ◌≡◌, ◌+◌, length-append, take-append, arith,
}

-- What `Config` of util/bulk_element.go hands to the client: the one object, or all of them under
-- the name of their parent.
pub data Element (Data : Type 0) : Type 0 where
  object : Data → Element Data
  bulk : String → List Data → Element Data

unfoldable pub config : {Data : Type 0} → String → List Data → Element Data
config name (d ∷ []) = object d
config name ds = bulk name ds

-- The calls of `util.XapiClient` that a namespace makes. Their last two arguments are nil in every
-- call; a read also returns the bytes of the response.
pub record XapiClient (S Data : Type 0) : Type 0 where
  pub get : List String → S → (String × Option Error) × S
  pub show : List String → S → (String × Option Error) × S
  pub set : List String → Element Data → S → Option Error × S
  pub edit : List String → Data → S → Option Error × S
  pub delete : List String → S → Option Error × S
  pub move : List String → String → String → S → Option Error × S

pub record Namespace (S Data : Type 0) : Type 0 where
  pub singular : String
  pub plural : String
  pub con : XapiClient S Data

-- `path[len(path)-2]`, which panics on a shorter path.
unfoldable pub second_last : List String → Option String
second_last path = if ltb (length path) 2 then none else get_elem? path (length path - 2)

-- `path[:len(path)-n]`, on a path that is long enough.
unfoldable pub drop_last : ℕ → List String → List String
drop_last n path = take (length path - n) path

add_sub : (a b : ℕ) → a + b - b ≡ a
add_sub a b = omega arith

-- What was appended is dropped again.
pub drop_last-append : (xs ys : List String) → drop_last (length ys) (xs ++ ys) ≡ xs
unfolding drop_last
drop_last-append xs ys =
    rw (length-append xs ys, add_sub (length xs) (length ys)) (take-append xs ys)
