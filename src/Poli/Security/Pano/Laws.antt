-- ===== src/Poli/Security/Pano/Laws.antt =====
-- What `Set` of poli/security/pano.go does with several rules.
use pango.Base.{
  ℕ, suc, String, List, [], ◌∷◌, false, Option, some, Error, errorf, str, message, ◌≡◌, refl,
}
use pango.Base.Strings.{contains}
use pango.Namespace.Client.{Namespace}
use pango.Namespace.Write as Write
use pango.Namespace.Write.{repeated}
use pango.Poli.Security.{Entry}
use pango.Poli.Security.Xml.{EntryV1, ContainerV1}
use pango.Poli.Run.{returned}
use pango.Poli.Rules as Rules
use pango.Poli.Security.Pano.{set}

-- The error of `Set` of a namespace, for the empty name.
abbrev pub defined_twice : String → Error
defined_twice singular = errorf "%s is defined multiple times: %q" (str singular ∷ str "" ∷ [])

module _ {S : Type 0} (n : Namespace S EntryV1)
    (unmarshal : String → ContainerV1 → Option Error × ContainerV1) where
  -- Two or more rules are never set on a Panorama: the error says that the empty name is defined twice, and the
  -- state of the client is as before, so that nothing was sent. This is for any fuel but none, and
  -- for a word for the rules with which that error does not say "rules is invalid".
  pub set_of_several :
      (dg base : String) (fuel : ℕ) (e d : Entry) (es : List Entry) (s : S)
      → contains (message (defined_twice n.singular)) "rules is invalid" ≡ false
      → set n unmarshal dg base (suc fuel) (e ∷ d ∷ es) s
        ≡ returned (some (defined_twice n.singular), s)
  unfolding set Rules.set Write.set repeated
  set_of_several dg base fuel e d es s plain = rw (plain, Rules.set) refl
