-- ===== src/Netw/Redist.antt =====
-- netw/routing/profile/redist/ipv4/: the redistribution profiles of a virtual router, with the struct of each version of PAN-OS and the
-- namespace of a firewall and that of a Panorama.
pub mod RoundTrip
use pango.Base.{
  ℤ, pos, String, List, [], ◌∷◌, ◌++◌, Option, none, some, not, ◌||◌, items, is_empty, ◌==◌,
  if◌then◌else◌,
}
use pango.Util.Member.{MemberType, mem_to_str, str_to_mem}
use pango.Util.Xpath.{as_entry_xpath, template_xpath_prefix}
use pango.Entries.{
  Kind, Con, Operations, Answer, operations, called, needs, needs_template, ◌or_else◌,
}

abbrev pub action_redist : String
action_redist = "redist"

abbrev pub action_no_redist : String
action_no_redist = "no-redist"

pub record Entry : Type 0 where
  pub name : String
  pub priority : ℤ
  pub action : String
  pub types : Option (List String)
  pub interfaces : Option (List String)
  pub destinations : Option (List String)
  pub next_hops : Option (List String)
  pub ospf_path_types : Option (List String)
  pub ospf_areas : Option (List String)
  pub ospf_tags : Option (List String)
  pub bgp_communities : Option (List String)
  pub bgp_extended_communities : Option (List String)

-- `Entry{}`
abbrev pub no_entry : Entry
no_entry = record {
  name = "";
  priority = pos 0;
  action = "";
  types = none;
  interfaces = none;
  destinations = none;
  next_hops = none;
  ospf_path_types = none;
  ospf_areas = none;
  ospf_tags = none;
  bgp_communities = none;
  bgp_extended_communities = none;
}

-- `Copy`, of `s` to `o`; the name is kept.
unfoldable pub copy : Entry → Entry → Entry
copy o s = record o {
  priority = s.priority;
  action = s.action;
  types = s.types;
  interfaces = s.interfaces;
  destinations = s.destinations;
  next_hops = s.next_hops;
  ospf_path_types = s.ospf_path_types;
  ospf_areas = s.ospf_areas;
  ospf_tags = s.ospf_tags;
  bgp_communities = s.bgp_communities;
  bgp_extended_communities = s.bgp_extended_communities;
}

pub record Act : Type 0 where
  pub redist : Option String
  pub no_redist : Option String

pub record Ospf : Type 0 where
  pub ospf_path_types : Option MemberType
  pub ospf_areas : Option MemberType
  pub ospf_tags : Option MemberType

pub record Bgp : Type 0 where
  pub bgp_communities : Option MemberType
  pub bgp_extended_communities : Option MemberType

pub record Filter : Type 0 where
  pub types : Option MemberType
  pub interfaces : Option MemberType
  pub destinations : Option MemberType
  pub next_hops : Option MemberType
  pub ospf : Option Ospf
  pub bgp : Option Bgp

pub record EntryV1 : Type 0 where
  pub name : String
  pub priority : ℤ
  pub action : Act
  pub filter : Option Filter

unfoldable pub specify_v1 : Entry → EntryV1
unfolding str_to_mem
specify_v1 e = record {
  name = e.name;
  priority = e.priority;
  action = record {
    redist = if e.action == action_redist then some "" else none;
    no_redist =
        if e.action == action_redist
        then none
        else if e.action == action_no_redist
        then some ""
        else none;
  };
  filter =
      if not (is_empty (items e.types))
        || not (is_empty (items e.interfaces))
        || not (is_empty (items e.destinations))
        || not (is_empty (items e.next_hops))
        || not (is_empty (items e.ospf_path_types))
        || not (is_empty (items e.ospf_areas))
        || not (is_empty (items e.ospf_tags))
        || not (is_empty (items e.bgp_communities))
        || not (is_empty (items e.bgp_extended_communities))
      then some (record {
        types = str_to_mem e.types;
        interfaces = str_to_mem e.interfaces;
        destinations = str_to_mem e.destinations;
        next_hops = str_to_mem e.next_hops;
        ospf =
            if not (is_empty (items e.ospf_path_types))
              || not (is_empty (items e.ospf_areas))
              || not (is_empty (items e.ospf_tags))
            then some (record {
              ospf_path_types = str_to_mem e.ospf_path_types;
              ospf_areas = str_to_mem e.ospf_areas;
              ospf_tags = str_to_mem e.ospf_tags;
            })
            else none;
        bgp =
            if not (is_empty (items e.bgp_communities))
              || not (is_empty (items e.bgp_extended_communities))
            then some (record {
              bgp_communities = str_to_mem e.bgp_communities;
              bgp_extended_communities = str_to_mem e.bgp_extended_communities;
            })
            else none;
      })
      else none;
}

unfoldable pub normalize_v1 : EntryV1 → Entry
unfolding mem_to_str
normalize_v1 o = record {
  name = o.name;
  priority = o.priority;
  action = elim o.action.redist [
    | none ↦ elim o.action.no_redist [ none ↦ "" | some no_redist ↦ action_no_redist ]
    | some redist ↦ action_redist
  ];
  types = elim o.filter [ none ↦ none | some filter ↦ mem_to_str filter.types ];
  interfaces = elim o.filter [ none ↦ none | some filter ↦ mem_to_str filter.interfaces ];
  destinations = elim o.filter [ none ↦ none | some filter ↦ mem_to_str filter.destinations ];
  next_hops = elim o.filter [ none ↦ none | some filter ↦ mem_to_str filter.next_hops ];
  ospf_path_types = elim o.filter [
    | none ↦ none
    | some filter ↦ elim filter.ospf [ none ↦ none | some ospf ↦ mem_to_str ospf.ospf_path_types ]
  ];
  ospf_areas = elim o.filter [
    | none ↦ none
    | some filter ↦ elim filter.ospf [ none ↦ none | some ospf ↦ mem_to_str ospf.ospf_areas ]
  ];
  ospf_tags = elim o.filter [
    | none ↦ none
    | some filter ↦ elim filter.ospf [ none ↦ none | some ospf ↦ mem_to_str ospf.ospf_tags ]
  ];
  bgp_communities = elim o.filter [
    | none ↦ none
    | some filter ↦ elim filter.bgp [ none ↦ none | some bgp ↦ mem_to_str bgp.bgp_communities ]
  ];
  bgp_extended_communities = elim o.filter [
    | none ↦ none
    | some filter ↦ elim filter.bgp [
      | none ↦ none
      | some bgp ↦ mem_to_str bgp.bgp_extended_communities
    ]
  ];
}

abbrev pub no_entry_v1 : EntryV1
no_entry_v1 = record {
  name = "";
  priority = pos 0;
  action = record { redist = none; no_redist = none };
  filter = none;
}

-- `versioning`
unfoldable pub versioning : Kind Entry EntryV1 (Answer EntryV1)
unfolding specify_v1 normalize_v1
versioning = record {
  name_of = λ e. e.name;
  specify = specify_v1;
  normalize = λ o. normalize_v1 o.answer;
  no_entry = no_entry;
  no_answer = record { answer = no_entry_v1 };
}

unfoldable pub fw_xpath : String → List String → List String
unfolding as_entry_xpath
fw_xpath vr vals =
    "config"
    ∷ "devices"
    ∷ as_entry_xpath ("localhost.localdomain" ∷ [])
    ∷ "network"
    ∷ "virtual-router"
    ∷ as_entry_xpath (vr ∷ [])
    ∷ "protocol"
    ∷ "redist-profile"
    ∷ as_entry_xpath vals
    ∷ []

unfoldable pub fw : {S : Type 0} → Con S EntryV1 (Answer EntryV1) → String → Operations S Entry
unfolding operations versioning fw_xpath
fw con vr =
    operations versioning con (fw_xpath vr) (called "redist-profile")
      "Unknown type sent to delete: %s" (needs "vr must be specified" vr)

unfoldable pub pano_xpath : String → String → String → List String → List String
unfolding as_entry_xpath template_xpath_prefix
pano_xpath tmpl ts vr vals =
    template_xpath_prefix tmpl ts
    ++ "config"
      ∷ "devices"
      ∷ as_entry_xpath ("localhost.localdomain" ∷ [])
      ∷ "network"
      ∷ "virtual-router"
      ∷ as_entry_xpath (vr ∷ [])
      ∷ "protocol"
      ∷ "redist-profile"
      ∷ as_entry_xpath vals
      ∷ []

unfoldable pub pano :
    {S : Type 0} → Con S EntryV1 (Answer EntryV1) → String → String → String → Operations S Entry
unfolding operations versioning pano_xpath
pano con tmpl ts vr =
    operations versioning con (pano_xpath tmpl ts vr) (called "redist-profile")
      "Unknown type sent to delete: %s"
      (needs_template tmpl ts or_else needs "vr must be specified" vr)
