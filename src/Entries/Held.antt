-- ===== src/Entries/Held.antt =====
-- What a device that stores objects by name holds, after objects are set one by one that it did not
-- hold.
use pango.Base.{
  String, List, [], ◌∷◌, false, none, some, ◌≡◌, refl, ◌∙◌, All, elem, map, eq_refl, eq_iff, arith,
}
use pango.Namespace.Client.{object}
use pango.Entries.{Con}
use pango.Entries.Stored.{IsPlain, set_each, IsDevice}

-- No name stands twice.
abbrev pub AreApart : List String → Type 0
AreApart [] = Unit
AreApart (n ∷ ns) = (elem n ns ≡ false) × AreApart ns

module _ {S Object Container : Type 0} (con : Con S Object Container)
    (object_name : Object → String) (holds : Object → Container)
    (dev : IsDevice con object_name holds) (p : List String) where
  abbrev pub AreNew : List Object → S → Type 0
  AreNew os s = All (λ o. dev.held p (object_name o) s ≡ none) os

  still_new :
      (o : Object) (os : List Object) (s : S)
      → IsPlain (object_name o)
      → dev.held p (object_name o) s ≡ none
      → elem (object_name o) (map object_name os) ≡ false
      → AreNew os s
      → AreNew os (con.set p (object o) s).1
  still_new o [] s plain new other h = tt
  still_new o (x ∷ os) s plain new other (hx, h) = (
    rw (dev.set_held p o s (object_name x) plain new) (
        ground
          (arith, eq_iff (object_name o) (object_name x), eq_iff (object_name x) (object_name o))),
    still_new o os s plain new (ground arith) h,
  )

  pub held_other :
      (os : List Object) (s : S) (m : String)
      → All IsPlain (map object_name os)
      → AreApart (map object_name os)
      → AreNew os s
      → elem m (map object_name os) ≡ false
      → dev.held p m (set_each con p os s) ≡ dev.held p m s
  held_other [] s m plain distinct new other = refl
  held_other (o ∷ os) s m (hp, plain) (hd, distinct) (hn, new) other =
      held_other os (con.set p (object o) s).1 m plain distinct (still_new o os s hp hn hd new)
        (ground arith)
      ∙ dev.set_held p o s m hp hn
      ∙ ground (arith, eq_iff (object_name o) m, eq_iff m (object_name o))

  pub held_all :
      (os : List Object) (s : S)
      → All IsPlain (map object_name os)
      → AreApart (map object_name os)
      → AreNew os s
      → All (λ o. dev.held p (object_name o) (set_each con p os s) ≡ some o) os
  held_all [] s plain distinct new = tt
  held_all (o ∷ os) s (hp, plain) (hd, distinct) (hn, new) =
      let new' : AreNew os (con.set p (object o) s).1 = still_new o os s hp hn hd new in
      (
        held_other os (con.set p (object o) s).1 (object_name o) plain distinct new' hd
            ∙ dev.set_held p o s (object_name o) hp hn
            ∙ rw (eq_refl (object_name o)) refl,
        held_all os (con.set p (object o) s).1 plain distinct new',
      )
