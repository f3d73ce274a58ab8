-- ===== src/Entries/Access.antt =====
-- What a namespace that is written to holds: its methods against a device that stores objects by name.
use pango.Base.{
  String, List, [], ◌∷◌, ◌++◌, true, false, Option, none, some, Error, ◌≡◌, refl, sym, ap, subst,
  ◌∙◌, All, elem, ◌==◌, if◌then◌else◌, map, eq_refl,
}
use pango.Namespace.Client.{object, bulk, config, drop_last, drop_last-append}
use pango.Util.Xpath.{as_entry_xpath}
use pango.Entries.{
  Deleted, Kind, Con, Operations, operations, details, found, put, set, edit, delete, remove,
  deleted_names, text_of,
}
use pango.Entries.Errors.{IsGiven, asked, names_of_given}
use pango.Entries.Held.{AreApart, AreNew, held_other, held_all}
use pango.Entries.Located.{append_middle}
use pango.Entries.Stored.{IsPlain, under, answered, set_each, IsDevice, IsLocated}

no_names :
    (n : String) (ns : List String)
    → ◌≡◌ {A = Option Error × List String} (none, []) (none, n ∷ ns)
    → ⊥
no_names n ns h = cc

module _ {S Entry Object Container : Type 0} (kind : Kind Entry Object Container)
    (con : Con S Object Container) (object_name : Object → String) (holds : Object → Container)
    (dev : IsDevice con object_name holds)
    (named : (e : Entry) → object_name (kind.specify e) ≡ kind.name_of e) where
  -- An entry that survives its struct.
  abbrev pub IsKept : Entry → Type 0
  IsKept e = kind.normalize (holds (kind.specify e)) ≡ e

  -- What is read of what is stored.
  abbrev pub read : Option Object → Option Error × Entry
  read none = (some dev.missing, kind.no_entry)
  read (some o) = (none, kind.normalize (holds o))

  found-answered :
      (ans : Container) (o : Option Object) → found kind (answered dev.missing holds ans o) ≡ read o
  unfolding found
  found-answered ans none = refl
  found-answered ans (some o) = refl

  names-specify : (es : List Entry) → map object_name (map kind.specify es) ≡ map kind.name_of es
  names-specify [] = refl
  names-specify (e ∷ es) = λ i. named e i ∷ names-specify es i

  module _ (xpath : List String → List String) (label : List String → Option String)
      (at : IsLocated xpath label) (unknown : String) where
    abbrev pub parent : List String
    parent = at.grand ++ at.tag ∷ []

    abbrev pub ops : Operations S Entry
    unfolding operations
    ops = operations kind con xpath label unknown none

    read_lem : (n : String) (s : S) → IsPlain n → ops.get n s ≡ (read (dev.held parent n s), s)
    unfolding operations details
    read_lem n s plain =
        rw (at.path (n ∷ []), dev.get_lem parent n kind.no_answer s plain)
          (ap (λ r. (r, s)) (found-answered kind.no_answer (dev.held parent n s)))

    edit_path :
        (e : Entry) (s : S)
        → ops.edit e s ≡ con.edit (under parent (kind.name_of e ∷ [])) (kind.specify e) s
    unfolding operations edit
    edit_path e s = ap (λ p. con.edit p (kind.specify e) s) (at.path (kind.name_of e ∷ []))

    get_same :
        (m : String) (s s' : S)
        → IsPlain m
        → dev.held parent m s' ≡ dev.held parent m s
        → (ops.get m s').0 ≡ (ops.get m s).0
    get_same m s s' plain h =
        ap (λ r. r.0) (read_lem m s' plain) ∙ ap read h ∙ sym (ap (λ r. r.0) (read_lem m s plain))

    get_kept :
        (e : Entry) (s : S)
        → IsPlain (kind.name_of e)
        → IsKept e
        → dev.held parent (kind.name_of e) s ≡ some (kind.specify e)
        → ops.get (kind.name_of e) s ≡ ((none, e), s)
    get_kept e s plain kept h =
        read_lem (kind.name_of e) s plain ∙ ap (λ r. (read r, s)) h ∙ ap (λ x. ((none, x), s)) kept

    held_edit :
        (e : Entry) (s : S) (m : String)
        → IsPlain (kind.name_of e)
        → dev.held parent m (ops.edit e s).1
          ≡ (if kind.name_of e == m then some (kind.specify e) else dev.held parent m s)
    held_edit e s m plain =
        ap (λ r. dev.held parent m r.1) (edit_path e s)
        ∙ dev.edit_held parent (kind.name_of e) (kind.specify e) s m plain (named e)

    -- On a device that stores objects by name, through a namespace whose guards do not refuse
    -- it, an entry that is edited is read back as it was given, without an error, if an xpath
    -- can hold its name and the entry survives its struct; what is read of another name that an
    -- xpath can hold is as before.
    pub get-edit :
        (e : Entry) (m : String) (s : S)
        → IsPlain (kind.name_of e)
        → IsPlain m
        → (kind.name_of e == m) ≡ false
        → IsKept e
        → ((ops.edit e s).0 ≡ none)
          × (ops.get (kind.name_of e) (ops.edit e s).1 ≡ ((none, e), (ops.edit e s).1))
          × ((ops.get m (ops.edit e s).1).0 ≡ (ops.get m s).0)
    get-edit e m s plain plain_m other kept = (
      ap (λ r. r.0) (edit_path e s)
          ∙ dev.edit_ok parent (kind.name_of e) (kind.specify e) s plain (named e),
      get_kept e (ops.edit e s).1 plain kept
          (held_edit e s (kind.name_of e) plain ∙ rw (eq_refl (kind.name_of e)) refl),
      get_same m s (ops.edit e s).1 plain_m (held_edit e s m plain ∙ rw other refl),
    )

    delete_path :
        (ds : List (Deleted Entry)) (n : String) (ns : List String) (s : S)
        → deleted_names kind unknown ds ≡ (none, n ∷ ns)
        → ops.delete ds s ≡ con.delete (under parent (n ∷ ns)) s
    unfolding operations delete remove
    delete_path [] n ns s h = absurd (no_names n ns h)
    delete_path (d ∷ ds) n ns s h = rw h (ap (λ p. con.delete p s) (at.path (n ∷ ns)))

    held_delete :
        (ds : List (Deleted Entry)) (n : String) (ns : List String) (s : S) (m : String)
        → deleted_names kind unknown ds ≡ (none, n ∷ ns)
        → All IsPlain (n ∷ ns)
        → dev.held parent m (ops.delete ds s).1
          ≡ (if elem m (n ∷ ns) then none else dev.held parent m s)
    held_delete ds n ns s m h plain =
        ap (λ r. dev.held parent m r.1) (delete_path ds n ns s h)
        ∙ dev.delete_held parent n ns s m plain

    -- On a device that stores objects by name, through a namespace whose guards do not refuse
    -- it, what is deleted, by its name or as an entry, is no longer found: Get returns the
    -- error of a missing object and an empty entry. What is read of a name that is not deleted
    -- is as before. The names are ones that an xpath can hold, and at least one is given.
    pub get-delete :
        (d : Deleted Entry) (ds : List (Deleted Entry)) (m k : String) (s : S)
        → All IsGiven (d ∷ ds)
        → All IsPlain (map (asked kind) (d ∷ ds))
        → IsPlain m
        → IsPlain k
        → elem m (map (asked kind) (d ∷ ds)) ≡ true
        → elem k (map (asked kind) (d ∷ ds)) ≡ false
        → ((ops.delete (d ∷ ds) s).0 ≡ none)
          × (ops.get m (ops.delete (d ∷ ds) s).1
              ≡ ((some dev.missing, kind.no_entry), (ops.delete (d ∷ ds) s).1))
          × ((ops.get k (ops.delete (d ∷ ds) s).1).0 ≡ (ops.get k s).0)
    get-delete d ds m k s given plain plain_m plain_k gone kept =
        let n : String = asked kind d in
        let ns : List String = map (asked kind) ds in
        let h : deleted_names kind unknown (d ∷ ds) ≡ (none, n ∷ ns) =
          names_of_given kind unknown (d ∷ ds) given in
        let s' : S = (ops.delete (d ∷ ds) s).1 in
        let lost : dev.held parent m s' ≡ none =
          held_delete (d ∷ ds) n ns s m h plain ∙ rw gone refl in
        let same : dev.held parent k s' ≡ dev.held parent k s =
          held_delete (d ∷ ds) n ns s k h plain ∙ rw kept refl in
        (
          ap (λ r. r.0) (delete_path (d ∷ ds) n ns s h) ∙ dev.delete_ok parent n ns s plain,
          read_lem m s' plain_m ∙ ap (λ r. (read r, s')) lost,
          get_same k s s' plain_k same,
        )

    drop_one : (ns : List String) → drop_last 1 (xpath ns) ≡ parent
    drop_one ns = ap (drop_last 1) (at.path ns) ∙ drop_last-append parent (as_entry_xpath ns ∷ [])

    drop_two : (ns : List String) → drop_last 2 (xpath ns) ≡ at.grand
    drop_two ns =
        ap (drop_last 2) (at.path ns ∙ append_middle at.grand at.tag (as_entry_xpath ns ∷ []))
        ∙ drop_last-append at.grand (at.tag ∷ as_entry_xpath ns ∷ [])

    set_one : (e : Entry) (s : S) → ops.set (e ∷ []) s ≡ con.set parent (object (kind.specify e)) s
    unfolding operations set put config
    set_one e s = ap (λ p. con.set p (object (kind.specify e)) s) (drop_one (kind.name_of e ∷ []))

    -- Several entries under their grandparent are the entries one by one under their parent.
    set_several :
        (e d : Entry) (es : List Entry) (s : S)
        → ops.set (e ∷ d ∷ es) s ≡ (none, set_each con parent (map kind.specify (e ∷ d ∷ es)) s)
    unfolding operations set put config
    set_several e d es s =
        let names : List String = map kind.name_of (e ∷ d ∷ es) in
        let os : List Object = map kind.specify (e ∷ d ∷ es) in
        (λ i. con.set (drop_two names i) (bulk (text_of (at.labelled names i)) os) s)
        ∙ dev.bulk_lem at.grand at.tag os s

    set_lem :
        (e : Entry) (es : List Entry) (s : S)
        → ((ops.set (e ∷ es) s).0 ≡ none)
          × ((ops.set (e ∷ es) s).1 ≡ set_each con parent (map kind.specify (e ∷ es)) s)
    set_lem e [] s = (
      ap (λ r. r.0) (set_one e s) ∙ dev.set_ok parent (kind.specify e) s,
      ap (λ r. r.1) (set_one e s),
    )
    set_lem e (d ∷ es) s =
        (ap (λ r. r.0) (set_several e d es s), ap (λ r. r.1) (set_several e d es s))

    abbrev pub AreRead : List Entry → S → Type 0
    AreRead es s = All (λ e. ops.get (kind.name_of e) s ≡ ((none, e), s)) es

    are_read :
        (es : List Entry) (s : S)
        → All IsPlain (map kind.name_of es)
        → All IsKept es
        → All (λ o. dev.held parent (object_name o) s ≡ some o) (map kind.specify es)
        → AreRead es s
    are_read [] s plain kept h = tt
    are_read (e ∷ es) s (hp, plain) (hk, kept) (hh, h) = (
      get_kept e s hp hk (ap (λ n. dev.held parent n s) (sym (named e)) ∙ hh),
      are_read es s plain kept h,
    )

    -- Whether a device has none of the entries.
    abbrev pub AreMissing : List Entry → S → Type 0
    AreMissing es s = All (λ e. dev.held parent (kind.name_of e) s ≡ none) es

    are_new :
        (es : List Entry) (s : S)
        → AreMissing es s
        → AreNew con object_name holds dev parent (map kind.specify es) s
    are_new [] s h = tt
    are_new (e ∷ es) s (hm, h) = (ap (λ n. dev.held parent n s) (named e) ∙ hm, are_new es s h)

    -- On a device that stores objects by name, through a namespace whose guards do not refuse
    -- it, entries that are set are all read back as they were given, without an error, if an
    -- xpath can hold their names, no two have one name, the device has none of them yet, and
    -- each survives its struct; what is read of another name that an xpath can hold is as
    -- before.
    pub get-set :
        (e : Entry) (es : List Entry) (m : String) (s : S)
        → All IsPlain (map kind.name_of (e ∷ es))
        → AreApart (map kind.name_of (e ∷ es))
        → AreMissing (e ∷ es) s
        → All IsKept (e ∷ es)
        → IsPlain m
        → elem m (map kind.name_of (e ∷ es)) ≡ false
        → ((ops.set (e ∷ es) s).0 ≡ none)
          × AreRead (e ∷ es) (ops.set (e ∷ es) s).1
          × ((ops.get m (ops.set (e ∷ es) s).1).0 ≡ (ops.get m s).0)
    get-set e es m s plain distinct missing kept plain_m other =
        let os : List Object = map kind.specify (e ∷ es) in
        let names : map object_name os ≡ map kind.name_of (e ∷ es) = names-specify (e ∷ es) in
        let plain' : All IsPlain (map object_name os) = subst (All IsPlain) (sym names) plain in
        let distinct' : AreApart (map object_name os) = subst AreApart (sym names) distinct in
        let other' : elem m (map object_name os) ≡ false = ap (elem m) names ∙ other in
        let new : AreNew con object_name holds dev parent os s = are_new (e ∷ es) s missing in
        let after : (ops.set (e ∷ es) s).1 ≡ set_each con parent os s = (set_lem e es s).1 in
        (
          (set_lem e es s).0,
          subst (AreRead (e ∷ es)) (sym after) (
              are_read (e ∷ es) (set_each con parent os s) plain kept
                (held_all con object_name holds dev parent os s plain' distinct' new)),
          get_same m s (ops.set (e ∷ es) s).1 plain_m (
              ap (dev.held parent m) after
              ∙ held_other con object_name holds dev parent os s m plain' distinct' new other'),
        )
