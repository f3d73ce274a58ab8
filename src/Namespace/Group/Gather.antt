-- ===== src/Namespace/Group/Gather.antt =====
-- The loop of `MoveGroup` gathers the group behind its first rule.
use mathlib.Core.List.{append_assoc}
use pango.Base.{
  String, List, [], ◌∷◌, ◌++◌, true, false, Option, none, some, Error, ◌≡◌, refl, sym, ap, subst,
  ◌∙◌, All, ◌==◌, elem, arith, eq_refl,
}
use pango.Namespace.Client.{Namespace}
use pango.Namespace.Group.{follow}
use pango.Namespace.Device.{MovesRules}
use pango.Namespace.Device.Lists.{
  remove, insert_after, remove_all, remove-append, remove_of_absent, remove-cons_ne,
  insert_after-append, elem-append, elem-remove_self, elem-remove_ne, eq_comm,
}
use pango.Namespace.Write.Laws.{AreDistinct}

-- The order once the rule `x` has gone behind `last`.
place_after_last :
    (x last : String) (b pre a : List String)
    → elem last b ≡ false
    → elem last pre ≡ false
    → elem x pre ≡ false
    → (x == last) ≡ false
    → insert_after last x (remove x (b ++ pre ++ last ∷ a))
      ≡ remove x b ++ (pre ++ last ∷ []) ++ x ∷ remove x a
place_after_last x last b pre a hb hp xp ne = rw (
  remove-append x (b ++ pre) (last ∷ a),
  remove-append x b pre,
  remove_of_absent x pre xp,
  remove-cons_ne x last a ne,
  insert_after-append last x (remove x b ++ pre) (remove x a) last_new,
  ← append_assoc (remove x b) pre (last ∷ []),
  append_assoc (remove x b ++ pre) (last ∷ []) (x ∷ remove x a),
)
  where
    last_new : elem last (remove x b ++ pre) ≡ false
    last_new =
        rw (elem-append last (remove x b) pre, elem-remove_ne x last b (eq_comm x last ne), hb, hp)

abbrev pub AreNew : List String → List String → Type 0
AreNew used names = All (λ m. elem m used ≡ false) names

AreNew-concat :
    (used : List String) (x : String) (names : List String)
    → AreNew used names
    → All (λ m. (m == x) ≡ false) names
    → AreNew (used ++ x ∷ []) names
AreNew-concat used x [] h d = tt
AreNew-concat used x (m ∷ names) h d =
    (ground (arith, elem-append m used (x ∷ []), h.0, d.0), AreNew-concat used x names h.1 d.1)

abbrev pub ArePresent : List String → List String → Type 0
ArePresent names rules = All (λ m. elem m rules ≡ true) names

-- A rule that is not moved stays where it is found.
elem-place :
    (z x last : String) (b pre a : List String)
    → (z == x) ≡ false
    → elem z (b ++ pre ++ last ∷ a) ≡ true
    → elem z (remove x b ++ (pre ++ last ∷ []) ++ x ∷ remove x a) ≡ true
elem-place z x last b pre a ne h = ground (
  arith,
  elem-append z (b ++ pre) (last ∷ a),
  elem-append z b pre,
  elem-append z (remove x b ++ (pre ++ last ∷ [])) (x ∷ remove x a),
  elem-append z (remove x b) (pre ++ last ∷ []),
  elem-append z pre (last ∷ []),
  elem-remove_ne x z b,
  elem-remove_ne x z a,
)

ArePresent-place :
    (names : List String) (x last : String) (b pre a : List String)
    → All (λ m. (m == x) ≡ false) names
    → ArePresent names (b ++ pre ++ last ∷ a)
    → ArePresent names (remove x b ++ (pre ++ last ∷ []) ++ x ∷ remove x a)
ArePresent-place [] x last b pre a d h = tt
ArePresent-place (m ∷ names) x last b pre a d h =
    (elem-place m x last b pre a d.0 h.0, ArePresent-place names x last b pre a d.1 h.1)

apart :
    (x last : String) (pre : List String)
    → elem x (pre ++ last ∷ []) ≡ false
    → (elem x pre ≡ false) × ((x == last) ≡ false)
apart x last pre h = ground (arith, elem-append x pre (last ∷ []))

last_present : (last : String) (b pre a : List String) → elem last (b ++ pre ++ last ∷ a) ≡ true
last_present last b pre a = ground (arith, elem-append last (b ++ pre) (last ∷ a), eq_refl last)

-- What the loop makes of a group whose part `pre` already stands in front of `last`.
abbrev pub Gathered :
    {S : Type 0} → (S → List String) → Option (Option Error × S) → List String → Type 0
Gathered {S} rules result final = (s : S) × (result ≡ some (none, s)) × (rules s ≡ final)

module _ {S Data : Type 0} (n : Namespace S Data) (pather : String → List String)
    (rules : S → List String) (device : MovesRules n pather rules) where
  follow_step :
      (last x : String) (names : List String) (s : S)
      → (n.con.move (pather x) "after" last s).0 ≡ none
      → follow n (pather last) last (x ∷ names) s
        ≡ follow n (pather x) x names (n.con.move (pather x) "after" last s).1
  unfolding follow
  follow_step last x names s ok = rw (device.paths last x) (ground (arith, ok))

  follow_end :
      (path : List String) (last : String) (s : S) → follow n path last [] s ≡ some (none, s)
  unfolding follow
  follow_end path last s = refl

  -- Rules that are on the device, and are distinct, end up behind `last` in their order, and the
  -- other rules keep theirs.
  pub follow-Gathered :
      (names b pre a : List String) (last : String) (s : S)
      → rules s ≡ b ++ pre ++ last ∷ a
      → elem last b ≡ false
      → elem last pre ≡ false
      → AreNew (pre ++ last ∷ []) names
      → AreDistinct names
      → ArePresent names (rules s)
      → Gathered rules
          (follow n (pather last) last names s)
          (remove_all names b ++ (pre ++ last ∷ names) ++ remove_all names a)
  follow-Gathered [] b pre a last s e hb hp new d here =
      (s, follow_end (pather last) last s, e ∙ simp append_assoc)
  follow-Gathered (x ∷ names) b pre a last s e hb hp new d here =
      let (xp, ne) = apart x last pre new.0 in
      let moved =
        device.after x last s here.0
          (subst (λ l. elem last l ≡ true) (sym e) (last_present last b pre a)) ne in
      let s₁ = (n.con.move (pather x) "after" last s).1 in
      let e₁ =
        moved.1
        ∙ ap (λ l. insert_after last x (remove x l)) e
        ∙ place_after_last x last b pre a hb hp xp ne in
      let here₁ =
        subst (ArePresent names) (sym e₁)
          (ArePresent-place names x last b pre a d.0 (subst (ArePresent names) e here.1)) in
      let (s', r, f) =
        follow-Gathered names (remove x b) (pre ++ last ∷ []) (remove x a) x s₁ e₁
          (elem-remove_self x b) new.0 (AreNew-concat (pre ++ last ∷ []) x names new.1 d.0) d.1
          here₁ in
      (
        s',
        follow_step last x names s moved.0 ∙ r,
        f
            ∙ ap (λ l. remove_all names (remove x b) ++ l ++ remove_all names (remove x a))
                (append_assoc pre (last ∷ []) (x ∷ names)),
      )
