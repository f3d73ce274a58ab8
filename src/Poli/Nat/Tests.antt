-- ===== src/Poli/Nat/Tests.antt =====
-- The NAT rules at concrete inputs.
use pango.Base.{String, List, [], ◌∷◌, map, Option, none, some, Error, pos, ◌≡◌, refl}
use pango.Version.{Number, gte}
use pango.Namespace.Client.{drop_last, second_last}
use pango.Namespace.Retrieve as Retrieve
use pango.Namespace.Unpackage.{unpackage_xml_into}
use pango.Util.Packaging.{strip_panos_packaging, strip_tag, strip_inner, trim_space}
use pango.Namespace.Group as Group
use pango.Namespace.Device.{MovesRules}
use pango.Namespace.Group.Laws.{AreApart}
use pango.Namespace.Group.Positioned.{Placed}
use pango.Namespace.Group.Model.{namespace_of, device_of-MovesRules}
use pango.Poli.Rules.{Kind, entry_names, pather, list_by, move_group}
use pango.Poli.Rules.Moves.{directly_before, At, movement_of, move_group-Placed}
use pango.Poli.Nat.{Entry, no_entry, dynamic_ip_and_port, interface_address, dat_type_dynamic}
use pango.Poli.Nat.Xml.{
  Object, Container, container_v2, specify, specify_v2, names, normalize, versioning,
}
use pango.Poli.Nat.Translation.{port_of_interface, to_dynamic}
use pango.Poli.Nat.RoundTrip.{IsLinked, normalize-specify_nat}
use pango.Poli.Nat.Fw.{xpath}

abbrev new_version : Number
new_version = record { major = pos 9; minor = pos 0; patch = pos 1; suffix = "" }

abbrev rule : String → Entry
rule x = record no_entry {
  name = x;
  sat_type = dynamic_ip_and_port;
  sat_address_type = interface_address;
  sat_interface = "ethernet1/1";
  dat_type = dat_type_dynamic;
  dat_address = "10.0.0.1";
  dat_port = pos 80;
}

abbrev rule-IsLinked : IsLinked new_version (rule "n1")
unfolding gte
rule-IsLinked = record {
  translation = port_of_interface "ethernet1/1" "";
  sat = refl;
  address = tt;
  destination = to_dynamic "10.0.0.1" (pos 80) "";
  dat = refl;
  given = (refl, refl);
  distinct = tt;
  targets = refl;
}

normalize-specify_nat_example : normalize (specify new_version (rule "n1")) ≡ rule "n1"
normalize-specify_nat_example = normalize-specify_nat new_version (rule "n1") rule-IsLinked

abbrev order : List String
order = "a" ∷ "b" ∷ "c" ∷ "d" ∷ []

-- A response that lists the rules in their order.
abbrev unmarshal : String → Container → Option Error × Container
unmarshal text ans = (none, container_v2 (map (λ x. specify_v2 (rule x)) order))

abbrev kind : Kind Entry Object Container
kind = versioning new_version

abbrev device :
    MovesRules
      (namespace_of Object)
      (pather kind (namespace_of Object) unmarshal (xpath ""))
      (λ s. s)
unfolding xpath Group.set_last drop_last
device =
    device_of-MovesRules (pather kind (namespace_of Object) unmarshal (xpath "")) (λ v. refl)
      (λ v w. refl)

list_run :
    list_by kind (namespace_of Object) unmarshal (xpath "") "get" order
    ≡ some ((none, some order), order)
unfolding versioning gte list_by names xpath Retrieve.retrieve Retrieve.target Retrieve.plural_path
    second_last Retrieve.finish Retrieve.query strip_panos_packaging strip_tag strip_inner
    trim_space unpackage_xml_into drop_last specify_v2
list_run = refl

abbrev apart : AreApart (λ s. s) "b" "d" ("a" ∷ []) order
apart = record {
  rule_named = refl;
  apart = refl;
  outside = refl;
  distinct = ((refl, tt), (tt, tt));
  listed = ((refl, (refl, (refl, tt))), ((refl, (refl, tt)), ((refl, tt), (tt, tt))));
  rule_here = refl;
  first_here = refl;
  names_here = (refl, tt);
}

move_group-Placed_example :
    Placed
      (λ s. s)
      (At directly_before "b")
      (entry_names kind (rule "d" ∷ rule "a" ∷ []))
      order
      (move_group kind
        (namespace_of Object)
        unmarshal
        (xpath "")
        (movement_of directly_before)
        "b"
        (rule "d" ∷ rule "a" ∷ [])
        order)
unfolding versioning
move_group-Placed_example =
    move_group-Placed kind (namespace_of Object) unmarshal (xpath "") (λ s. s) device
      directly_before "b" (rule "d") (rule "a" ∷ []) order list_run apart
