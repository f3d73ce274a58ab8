-- ===== src/Entries.antt =====
-- The operations that the packages of objs/, netw/ and dev/ share whose namespaces hold a
-- `util.XapiClient` alone, over the xpath of their entries and over what a package says of them. They
-- are those of objs/app/group/fw.go; `Get` and `Set` have a second form in other packages, which is
-- written out where it is. `EntryListUsing` and `MemberListUsing` are those of client.go. Logging is
-- left out.
pub mod Stored
pub mod Located
pub mod Held
pub mod Access
pub mod Device
pub mod Errors
mod Tests
use pango.Base.{
  String, List, [], ◌∷◌, ◌++◌, map, Option, none, some, ◌&&◌, ◌||◌, not, Error, errorf, str,
  object_not_found, is_empty, ◌==◌, if◌then◌else◌,
}
use pango.Util.Xpath.{vsys_xpath_prefix, device_group_xpath_prefix, template_xpath_prefix}
use pango.Namespace.Client.{Element, config, drop_last, second_last}

-- What a package says of its entries: its `Entry`, the struct `Object` that it is specified as, and
-- the `Container` that a response is unmarshalled into, of which `no_answer` is the empty one.
pub record Kind (Entry Object Container : Type 0) : Type 0 where
  pub name_of : Entry → String
  pub specify : Entry → Object
  pub normalize : Container → Entry
  pub no_entry : Entry
  pub no_answer : Container

-- A container of one entry.
pub record Answer (Object : Type 0) : Type 0 where
  pub answer : Object

-- The calls of `util.XapiClient` that such a package makes. `get` and `show` return the container that
-- they are given as it is filled; in `get_strings` and `show_strings` it is the struct of one field
-- that `EntryListUsing` and `MemberListUsing` declare.
pub record Con (S Object Container : Type 0) : Type 0 where
  pub get : List String → Container → S → (Option Error × Container) × S
  pub show : List String → Container → S → (Option Error × Container) × S
  pub get_strings : List String → S → (Option Error × List String) × S
  pub show_strings : List String → S → (Option Error × List String) × S
  pub set : List String → Element Object → S → Option Error × S
  pub edit : List String → Object → S → Option Error × S
  pub delete : List String → S → Option Error × S

-- What both of the functions below do with a response: no object is an empty list.
unfoldable pub listed : Option Error × List String → Option Error × Option (List String)
unfolding object_not_found
listed (none, names) = (none, some names)
listed (some e, names) = if object_not_found e then (none, none) else (some e, none)

module _ {S : Type 0} (fn : List String → S → (Option Error × List String) × S) where
  -- A path that is nil is `none`.
  unfoldable pub entry_list_using :
      Option (List String) → S → (Option Error × Option (List String)) × S
  unfolding listed
  entry_list_using none s = ((some (errorf "xpath is empty" []), none), s)
  entry_list_using (some path) s =
      let (r, s') = fn (path ++ "entry" ∷ "@name" ∷ []) s in (listed r, s')

  unfoldable pub member_list_using :
      Option (List String) → S → (Option Error × Option (List String)) × S
  unfolding listed
  member_list_using none s = ((some (errorf "xpath is empty" []), none), s)
  member_list_using (some path) s = let (r, s') = fn (path ++ "member" ∷ []) s in (listed r, s')

-- An argument of `Delete`: a name, an entry, or anything else, by its text.
pub data Deleted (Entry : Type 0) : Type 0 where
  by_name : String → Deleted Entry
  by_entry : Entry → Deleted Entry
  by_other : String → Deleted Entry

-- The methods of a namespace at one location.
pub record Operations (S Entry : Type 0) : Type 0 where
  pub get_list : S → (Option Error × Option (List String)) × S
  pub show_list : S → (Option Error × Option (List String)) × S
  pub get : String → S → (Option Error × Entry) × S
  pub show : String → S → (Option Error × Entry) × S
  pub set : List Entry → S → Option Error × S
  pub edit : Entry → S → Option Error × S
  pub delete : List (Deleted Entry) → S → Option Error × S

-- The guards at the head of `Set`, `Edit` and `Delete`; the first error is returned, here
-- by its message.
abbrev pub needs : String → String → Option Error
needs message v = if v == "" then some (errorf message []) else none

abbrev pub needs_template : String → String → Option Error
needs_template tmpl ts =
    if tmpl == "" && ts == "" then some (errorf "tmpl or ts must be specified" []) else none

infixr 30 ◌or_else◌
abbrev pub ◌or_else◌ : Option Error → Option Error → Option Error
some e or_else other = some e
none or_else other = other

-- The location of a profile of dev/: an empty vsys means "shared", and a Panorama keeps it in a template
-- or in a device group.
abbrev pub or_shared : String → String
or_shared vsys = if vsys == "" then "shared" else vsys

unfoldable pub profile_prefix : String → String → String → String → List String
unfolding vsys_xpath_prefix device_group_xpath_prefix template_xpath_prefix
profile_prefix tmpl ts vsys dg =
    if not (tmpl == "") || not (ts == "")
    then template_xpath_prefix tmpl ts ++ vsys_xpath_prefix (or_shared vsys)
    else device_group_xpath_prefix dg

-- The name of the parent of the entries in `Set`: the package's own, or that of their path.
abbrev pub called : String → List String → Option String
called name path = some name

unfoldable pub called_by_path : List String → Option String
unfolding second_last
called_by_path path = second_last path

abbrev pub text_of : Option String → String
text_of none = ""
text_of (some s) = s

-- What `Get` and `Show` of objs/addr/fw.go make of several entries.
unfoldable pub first_entry : {Entry : Type 0} → Entry → List Entry → Entry
first_entry no_entry [] = no_entry
first_entry no_entry (e ∷ es) = e

module _ {Entry Object Container : Type 0} (kind : Kind Entry Object Container) where
  -- What `details` makes of a response.
  unfoldable pub found : Option Error × Container → Option Error × Entry
  found (some e, ans) = (some e, kind.no_entry)
  found (none, ans) = (none, kind.normalize ans)

  abbrev all_found :
      (Container → List Entry) → Option Error × Container → Option Error × Option (List Entry)
  all_found normalize_all (some e, ans) = (some e, none)
  all_found normalize_all (none, ans) = (none, some (normalize_all ans))

  -- The loop of `Delete`, whose message is `unknown`.
  unfoldable pub deleted_names : String → List (Deleted Entry) → Option Error × List String
  deleted_names unknown [] = (none, [])
  deleted_names unknown (by_name v ∷ e) = let (err, vs) = deleted_names unknown e in (err, v ∷ vs)
  deleted_names unknown (by_entry v ∷ e) =
      let (err, vs) = deleted_names unknown e in (err, kind.name_of v ∷ vs)
  deleted_names unknown (by_other v ∷ e) = (some (errorf unknown (str v ∷ [])), [])

  abbrev pub names_of : List Entry → List String
  names_of es = map kind.name_of es

  -- The path that `Set` is sent to.
  abbrev pub set_path : List Entry → List String → List String
  unfolding drop_last
  set_path (e ∷ []) path = drop_last 1 path
  set_path es path = drop_last 2 path

  module _ {S : Type 0} (con : Con S Object Container) (xpath : List String → List String) where
    -- `details`
    unfoldable pub details :
        (List String → Container → S → (Option Error × Container) × S)
        → String
        → S
        → (Option Error × Entry) × S
    unfolding found
    details fn name s = let (r, s') = fn (xpath (name ∷ [])) kind.no_answer s in (found r, s')

    -- `GetAll` and `ShowAll` of objs/addr/fw.go, where `normalize_all` reads all entries of a response.
    unfoldable pub read_all :
        (Container → List Entry)
        → (List String → Container → S → (Option Error × Container) × S)
        → S
        → (Option Error × Option (List Entry)) × S
    read_all normalize_all fn s =
        let (r, s') = fn (xpath ("" ∷ [])) kind.no_answer s in (all_found normalize_all r, s')

    -- `Set` after its guards
    unfoldable pub put : (List String → Option String) → List Entry → S → Option Error × S
    unfolding config drop_last
    put label es s =
        let path = xpath (names_of es) in
        con.set (set_path es path) (config (text_of (label path)) (map kind.specify es)) s

    -- `Set`
    unfoldable pub set :
        (List String → Option String) → Option Error → List Entry → S → Option Error × S
    unfolding put
    set label refused [] s = (none, s)
    set label (some e) (d ∷ es) s = (some e, s)
    set label none (d ∷ es) s = put label (d ∷ es) s

    -- `Edit`
    unfoldable pub edit : Option Error → Entry → S → Option Error × S
    edit (some err) e s = (some err, s)
    edit none e s = con.edit (xpath (kind.name_of e ∷ [])) (kind.specify e) s

    -- `Delete` after its guards
    unfoldable pub remove : Option Error × List String → S → Option Error × S
    remove (some err, vs) s = (some err, s)
    remove (none, vs) s = con.delete (xpath vs) s

    -- `Delete`
    unfoldable pub delete : String → Option Error → List (Deleted Entry) → S → Option Error × S
    unfolding deleted_names remove
    delete unknown refused [] s = (none, s)
    delete unknown (some e) (d ∷ es) s = (some e, s)
    delete unknown none (d ∷ es) s = remove (deleted_names unknown (d ∷ es)) s

    -- All methods of a namespace, by the name of the parent in `Set`, the message of `Delete`, and the
    -- guards.
    unfoldable pub operations :
        (List String → Option String) → String → Option Error → Operations S Entry
    unfolding details set edit delete entry_list_using drop_last
    operations label unknown refused = record {
      get_list = entry_list_using con.get_strings (some (drop_last 1 (xpath [])));
      show_list = entry_list_using con.show_strings (some (drop_last 1 (xpath [])));
      get = details con.get;
      show = details con.show;
      set = set label refused;
      edit = edit refused;
      delete = delete unknown refused;
    }
