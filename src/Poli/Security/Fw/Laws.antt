-- ===== src/Poli/Security/Fw/Laws.antt =====
-- What `Set` of poli/security/fw.go sends, and where it never returns.
use pango.Base.{
  ℕ, zero, suc, String, List, [], ◌∷◌, map, Bool, true, false, Option, none, some, Error, message,
  ◌≡◌, refl, ap, ◌∙◌, ◌==◌, arith, if◌then◌else◌, Bool-cases, inl, inr,
}
use pango.Base.Strings.{contains}
use pango.Util.Xpath.{as_entry_xpath}
use pango.Namespace.Client.{Namespace}
use pango.Namespace.Write as Write
use pango.Namespace.Write.Laws.{AreDistinct, to_entry, sent, set_of_distinct}
use pango.Poli.Security.{Entry}
use pango.Poli.Security.Xml.{EntryV1, ContainerV1, specify}
use pango.Poli.Run.{returned, calling}
use pango.Poli.Rules as Rules
use pango.Poli.Security.Rules.{entry_names}
use pango.Poli.Security.Fw.{xpath, set}

-- The path of the rulebase.
abbrev pub rulebase : String → List String
rulebase vsys =
    let vsys' : String = if vsys == "" then "vsys1" else vsys in
    if vsys' == "shared"
    then "config" ∷ "shared" ∷ "rulebase" ∷ "security" ∷ []
    else "config"
      ∷ "devices"
      ∷ as_entry_xpath ("localhost.localdomain" ∷ [])
      ∷ "vsys"
      ∷ as_entry_xpath (vsys' ∷ [])
      ∷ "rulebase"
      ∷ "security"
      ∷ []

xpath_lem :
    (vsys : String) (vals : List String)
    → xpath vsys vals ≡ to_entry (rulebase vsys) "rules" (as_entry_xpath vals)
unfolding xpath
xpath_lem vsys vals = elim (Bool-cases ((if vsys == "" then "vsys1" else vsys) == "shared")) [
  | inl e ↦ rw e refl
  | inr e ↦ rw e refl
]

-- An error that `Set` looks into.
abbrev pub is_invalid : Option Error → Bool
is_invalid none = false
is_invalid (some e) = contains (message e) "rules is invalid"

module _ {S : Type 0} (n : Namespace S EntryV1)
    (unmarshal : String → ContainerV1 → Option Error × ContainerV1) where
  write_set :
      (vsys : String) (es : List Entry) (s : S)
      → AreDistinct (entry_names es)
      → Write.set n (entry_names es) (xpath vsys (entry_names es)) (map specify es) s
        ≡ some (sent n (rulebase vsys) "rules" (map specify es) s)
  write_set vsys es s d =
      ap (λ p. Write.set n (entry_names es) p (map specify es) s) (xpath_lem vsys (entry_names es))
      ∙ set_of_distinct n (entry_names es) (rulebase vsys) "rules" (as_entry_xpath (entry_names es))
          (map specify es) s d

  set_step :
      (vsys : String) (fuel : ℕ) (es : List Entry) (s : S) (r : Option Error × S)
      → Write.set n (entry_names es) (xpath vsys (entry_names es)) (map specify es) s ≡ some r
      → is_invalid r.0 ≡ false
      → set n unmarshal vsys (suc fuel) es s ≡ returned r
  unfolding set Rules.set
  set_step vsys fuel es s (none, s') e h = ground (arith, e)
  set_step vsys fuel es s (some err, s') e h = ground (arith, e, h)

  -- Rules with distinct names are set in one call at the rulebase of the vsys, or at its rules where
  -- there is one rule, and what the client says to that is returned, unless its error says that
  -- rules are invalid. This is for any fuel but none.
  pub set_of_rules :
      (vsys : String) (fuel : ℕ) (es : List Entry) (s : S)
      → AreDistinct (entry_names es)
      → is_invalid (sent n (rulebase vsys) "rules" (map specify es) s).0 ≡ false
      → set n unmarshal vsys (suc fuel) es s
        ≡ returned (sent n (rulebase vsys) "rules" (map specify es) s)
  set_of_rules vsys fuel es s d h =
      set_step vsys fuel es s (sent n (rulebase vsys) "rules" (map specify es) s)
        (write_set vsys es s d) h

  -- The state of the client after a rule is sent a number of times.
  abbrev pub sent_times : String → ℕ → Entry → S → S
  sent_times vsys zero e s = s
  sent_times vsys (suc k) e s =
      sent_times vsys k e (sent n (rulebase vsys) "rules" (specify e ∷ []) s).1

  again_step :
      (vsys : String) (fuel : ℕ) (e : Entry) (s s' s'' : S) (err : Error)
      → Write.set n (e.name ∷ []) (xpath vsys (e.name ∷ [])) (specify e ∷ []) s
        ≡ some (some err, s')
      → contains (message err) "rules is invalid" ≡ true
      → set n unmarshal vsys fuel (e ∷ []) s' ≡ calling (e ∷ []) s''
      → set n unmarshal vsys (suc fuel) (e ∷ []) s ≡ calling (e ∷ []) s''
  unfolding set Rules.set Rules.find_invalid
  again_step vsys fuel e s s' s'' err answer invalid rest = ground (arith, answer, invalid, rest)

  -- Where every call of the client is answered by an error that says that rules are invalid, Set
  -- of a single rule calls itself on that rule for ever: whatever the number of calls that it has
  -- made, it has sent the rule as often, nothing else was asked of the client, and it is calling
  -- itself on that rule again.
  pub set_never_returns :
      (vsys : String) (fuel : ℕ) (e : Entry) (s : S) (err : Error)
      → contains (message err) "rules is invalid" ≡ true
      → ((s : S) → (sent n (rulebase vsys) "rules" (specify e ∷ []) s).0 ≡ some err)
      → set n unmarshal vsys fuel (e ∷ []) s ≡ calling (e ∷ []) (sent_times vsys fuel e s)
  unfolding set Rules.set
  set_never_returns vsys zero e s err invalid answer = refl
  set_never_returns vsys (suc fuel) e s err invalid answer =
      let s' = (sent n (rulebase vsys) "rules" (specify e ∷ []) s).1 in
      again_step vsys fuel e s s' (sent_times vsys fuel e s') err
        (write_set vsys (e ∷ []) s (tt, tt) ∙ ap (λ o. some (o, s')) (answer s)) invalid
        (set_never_returns vsys fuel e s' err invalid answer)
