-- ===== src/Namespace/Retrieve/Laws.antt =====
-- Which path a read queries, and what it makes of the answer.
use mathlib.Core.List.{append_assoc}
use pango.Base.{
  String, List, [], ◌∷◌, ◌++◌, Bool, true, false, Option, none, some, Error, errorf, str, ◌≡◌, ap,
  ◌==◌, if◌then◌else◌, ◌>>=◌, ◌⊎◌, inl, inr, arith, eq_iff,
}
use pango.Namespace.Client.{Namespace}
use pango.Namespace.Write.Laws.{to_entry, second_last-to_entry, drop_last-entry}
use pango.Namespace.Retrieve.{
  plural_path, is_missing, finish, query, target, retrieve, object, objects, listing, named,
}

-- For a path that ends in a tag and an entry: the names are read by GET at the `@name` attributes of the entries, and by SHOW, as whole
-- objects are by either, at the parent of the entries. The tag to strip is the parent's.
pub plural_path_lem :
    (before : List String) (tag entry : String)
    → (plural_path "get" (to_entry before tag entry) true
        ≡ some (tag, before ++ tag ∷ entry ∷ "@name" ∷ []))
      × (plural_path "get" (to_entry before tag entry) false ≡ some (tag, before ++ tag ∷ []))
      × (plural_path "show" (to_entry before tag entry) true ≡ some (tag, before ++ tag ∷ []))
      × (plural_path "show" (to_entry before tag entry) false ≡ some (tag, before ++ tag ∷ []))
unfolding plural_path
plural_path_lem before tag entry = (
  rw second_last-to_entry
      (ap (λ p. some (tag, p)) (append_assoc before (tag ∷ entry ∷ []) ("@name" ∷ []))),
  rw (second_last-to_entry, drop_last-entry),
  rw (second_last-to_entry, drop_last-entry),
  rw (second_last-to_entry, drop_last-entry),
)

abbrev pub IsRead : String → Type 0
IsRead cmd = ((cmd == "get") ≡ true) ⊎ ((cmd == "show") ≡ true)

abbrev pub names_path : String → List String → String → String → List String
names_path cmd before tag entry =
    if cmd == "get" then before ++ tag ∷ entry ∷ "@name" ∷ [] else before ++ tag ∷ []

plural_path_of_read :
    (cmd : String) (before : List String) (tag entry : String)
    → IsRead cmd
    → plural_path cmd (to_entry before tag entry) false ≡ some (tag, before ++ tag ∷ [])
plural_path_of_read cmd before tag entry (inl e) =
    rw ((eq_iff cmd "get").0 e) (plural_path_lem before tag entry).1
plural_path_of_read cmd before tag entry (inr e) =
    rw ((eq_iff cmd "show").0 e) (plural_path_lem before tag entry).3

names_path_of_read :
    (cmd : String) (before : List String) (tag entry : String)
    → IsRead cmd
    → plural_path cmd (to_entry before tag entry) true ≡ some (tag, names_path cmd before tag entry)
names_path_of_read cmd before tag entry (inl e) =
    rw ((eq_iff cmd "get").0 e) (plural_path_lem before tag entry).0
names_path_of_read cmd before tag entry (inr e) =
    rw ((eq_iff cmd "show").0 e) (plural_path_lem before tag entry).2

module _ {S Data Ans : Type 0} (n : Namespace S Data)
    (unmarshal : String → Ans → Option Error × Ans) where
  -- Every read but GET and SHOW is refused, and nothing is sent.
  retrieve_of_other :
      (cmd : String) (path : List String) (singular plural names_only : Bool) (ans : Ans) (s : S)
      → (cmd == "get") ≡ false
      → (cmd == "show") ≡ false
      → retrieve n unmarshal cmd path singular plural names_only ans s
        ≡ some ((some (errorf "invalid cmd: %s" (str cmd ∷ [])), ans), s)
  unfolding retrieve
  retrieve_of_other cmd path singular plural names_only ans s get show = rw (get, show)

  retrieve_of_read :
      (cmd : String) (path : List String) (singular plural names_only : Bool) (ans : Ans) (s : S)
      → IsRead cmd
      → retrieve n unmarshal cmd path singular plural names_only ans s ≡ (
          target cmd path singular plural names_only >>= λ (tag, queried).
          finish unmarshal plural tag ans (query n cmd queried s))
  unfolding retrieve
  retrieve_of_read cmd path singular plural names_only ans s read = ground arith

  -- One object is read at its own path, and several at the parent of their path, whose tag is
  -- stripped.
  pub object_lem :
      (cmd : String) (path : List String) (ans : Ans) (s : S)
      → IsRead cmd
      → object n unmarshal cmd path ans s ≡ finish unmarshal false "" ans (query n cmd path s)
  unfolding object target
  object_lem cmd path ans s read = retrieve_of_read cmd path true false false ans s read

  pub objects_lem :
      (cmd : String) (before : List String) (tag entry : String) (ans : Ans) (s : S)
      → IsRead cmd
      → objects n unmarshal cmd (to_entry before tag entry) ans s
        ≡ finish unmarshal true tag ans (query n cmd (before ++ tag ∷ []) s)
  unfolding objects target
  objects_lem cmd before tag entry ans s read =
      rw (retrieve_of_read cmd (to_entry before tag entry) false true false ans s read)
        (rw (plural_path_of_read cmd before tag entry read))

  pub listing_lem :
      (names : Ans → List String) (cmd : String) (before : List String) (tag entry : String)
      (ans : Ans) (s : S)
      → IsRead cmd
      → listing n unmarshal names cmd (to_entry before tag entry) ans s ≡ (
          finish unmarshal true tag ans (query n cmd (names_path cmd before tag entry) s) >>= λ r.
          some (named names r.0, r.1))
  unfolding listing target
  listing_lem names cmd before tag entry ans s read =
      rw (retrieve_of_read cmd (to_entry before tag entry) false true true ans s read)
        (rw (names_path_of_read cmd before tag entry read))

  -- For GET or SHOW at a path that ends in a tag and an entry: where every read is answered by an error that says that there is nothing, a list and a list of
  -- names are read as empty, without an error, from the value they started with, and the read of
  -- one object returns the error.
  pub missing_lem :
      (names : Ans → List String) (cmd : String) (before : List String) (tag entry : String)
      (ans : Ans) (s s' : S) (text : String) (e : Error)
      → IsRead cmd
      → is_missing e ≡ true
      → ((path : List String) → query n cmd path s ≡ ((text, some e), s'))
      → (objects n unmarshal cmd (to_entry before tag entry) ans s ≡ some ((none, ans), s'))
        × (listing n unmarshal names cmd (to_entry before tag entry) ans s
            ≡ some ((none, some (names ans)), s'))
        × (object n unmarshal cmd (to_entry before tag entry) ans s ≡ some ((some e, ans), s'))
  unfolding finish
  missing_lem names cmd before tag entry ans s s' text e read missing answer = (
    rw (objects_lem cmd before tag entry ans s read, answer (before ++ tag ∷ [])) (rw missing),
    rw (listing_lem names cmd before tag entry ans s read, answer (names_path cmd before tag entry))
        (rw missing),
    rw (object_lem cmd (to_entry before tag entry) ans s read, answer (to_entry before tag entry)),
  )

  -- For GET or SHOW at a path that ends in a tag and an entry: where every read is answered by any
  -- other error, each of the three reads returns it, and what was to be filled is as before.
  pub failure_lem :
      (names : Ans → List String) (cmd : String) (before : List String) (tag entry : String)
      (ans : Ans) (s s' : S) (text : String) (e : Error)
      → IsRead cmd
      → is_missing e ≡ false
      → ((path : List String) → query n cmd path s ≡ ((text, some e), s'))
      → (objects n unmarshal cmd (to_entry before tag entry) ans s ≡ some ((some e, ans), s'))
        × (listing n unmarshal names cmd (to_entry before tag entry) ans s
            ≡ some ((some e, none), s'))
        × (object n unmarshal cmd (to_entry before tag entry) ans s ≡ some ((some e, ans), s'))
  unfolding finish
  failure_lem names cmd before tag entry ans s s' text e read other answer = (
    rw (objects_lem cmd before tag entry ans s read, answer (before ++ tag ∷ [])) (rw other),
    rw (listing_lem names cmd before tag entry ans s read, answer (names_path cmd before tag entry))
        (rw other),
    rw (object_lem cmd (to_entry before tag entry) ans s read, answer (to_entry before tag entry)),
  )
