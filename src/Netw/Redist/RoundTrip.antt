-- ===== src/Netw/Redist/RoundTrip.antt =====
-- What a redistribution profile is read back as from its XML struct.
use pango.Base.{
  String, List, Option, none, true, not, Bool, items, is_empty, ◌||◌, ◌≡◌, refl, ◌==◌, eq_iff,
  arith, if◌then◌else◌, Bool-cases, inl, inr,
}
use pango.Util.Member.{mem_to_str-str_to_mem}
use pango.Netw.Redist.{Entry, action_redist, action_no_redist, specify_v1, normalize_v1}

module _ (e : Entry) where
  abbrev given : Option (List String) → Bool
  given l = not (is_empty (items l))

  -- Whether the profile filters by OSPF, by BGP, and at all.
  abbrev pub by_ospf : Bool
  by_ospf = given e.ospf_path_types || given e.ospf_areas || given e.ospf_tags

  abbrev pub by_bgp : Bool
  by_bgp = given e.bgp_communities || given e.bgp_extended_communities

  abbrev pub is_filtered : Bool
  is_filtered =
      given e.types
      || given e.interfaces
      || given e.destinations
      || given e.next_hops
      || given e.ospf_path_types
      || given e.ospf_areas
      || given e.ospf_tags
      || given e.bgp_communities
      || given e.bgp_extended_communities

  abbrev pub list_when : Bool → Option (List String) → Option (List String)
  list_when b l = if b then l else none

  abbrev pub is_action : Bool
  is_action = e.action == action_redist || e.action == action_no_redist

  abbrev back : Entry
  back = normalize_v1 (specify_v1 e)

  action_kept : back.action ≡ (if is_action then e.action else "")
  unfolding normalize_v1 specify_v1
  action_kept = ground (arith, eq_iff e.action action_redist, eq_iff e.action action_no_redist)

  types_kept : back.types ≡ list_when is_filtered e.types
  unfolding normalize_v1 specify_v1
  types_kept = elim (Bool-cases is_filtered) [
    | inl k ↦ rw k (mem_to_str-str_to_mem e.types)
    | inr k ↦ rw k refl
  ]

  interfaces_kept : back.interfaces ≡ list_when is_filtered e.interfaces
  unfolding normalize_v1 specify_v1
  interfaces_kept = elim (Bool-cases is_filtered) [
    | inl k ↦ rw k (mem_to_str-str_to_mem e.interfaces)
    | inr k ↦ rw k refl
  ]

  destinations_kept : back.destinations ≡ list_when is_filtered e.destinations
  unfolding normalize_v1 specify_v1
  destinations_kept = elim (Bool-cases is_filtered) [
    | inl k ↦ rw k (mem_to_str-str_to_mem e.destinations)
    | inr k ↦ rw k refl
  ]

  next_hops_kept : back.next_hops ≡ list_when is_filtered e.next_hops
  unfolding normalize_v1 specify_v1
  next_hops_kept = elim (Bool-cases is_filtered) [
    | inl k ↦ rw k (mem_to_str-str_to_mem e.next_hops)
    | inr k ↦ rw k refl
  ]

  filtered_by_ospf : by_ospf ≡ true → is_filtered ≡ true
  filtered_by_ospf k = ground (arith, k)

  filtered_by_bgp : by_bgp ≡ true → is_filtered ≡ true
  filtered_by_bgp k = ground (arith, k)

  ospf_path_types_kept : back.ospf_path_types ≡ list_when by_ospf e.ospf_path_types
  unfolding normalize_v1 specify_v1
  ospf_path_types_kept = elim (Bool-cases by_ospf) [
    | inl k ↦ rw (filtered_by_ospf k) (rw k (mem_to_str-str_to_mem e.ospf_path_types))
    | inr k ↦ elim (Bool-cases is_filtered) [ inl f ↦ rw f (rw k refl) | inr f ↦ rw f (rw k refl) ]
  ]

  ospf_areas_kept : back.ospf_areas ≡ list_when by_ospf e.ospf_areas
  unfolding normalize_v1 specify_v1
  ospf_areas_kept = elim (Bool-cases by_ospf) [
    | inl k ↦ rw (filtered_by_ospf k) (rw k (mem_to_str-str_to_mem e.ospf_areas))
    | inr k ↦ elim (Bool-cases is_filtered) [ inl f ↦ rw f (rw k refl) | inr f ↦ rw f (rw k refl) ]
  ]

  ospf_tags_kept : back.ospf_tags ≡ list_when by_ospf e.ospf_tags
  unfolding normalize_v1 specify_v1
  ospf_tags_kept = elim (Bool-cases by_ospf) [
    | inl k ↦ rw (filtered_by_ospf k) (rw k (mem_to_str-str_to_mem e.ospf_tags))
    | inr k ↦ elim (Bool-cases is_filtered) [ inl f ↦ rw f (rw k refl) | inr f ↦ rw f (rw k refl) ]
  ]

  bgp_communities_kept : back.bgp_communities ≡ list_when by_bgp e.bgp_communities
  unfolding normalize_v1 specify_v1
  bgp_communities_kept = elim (Bool-cases by_bgp) [
    | inl k ↦ rw (filtered_by_bgp k) (rw k (mem_to_str-str_to_mem e.bgp_communities))
    | inr k ↦ elim (Bool-cases is_filtered) [ inl f ↦ rw f (rw k refl) | inr f ↦ rw f (rw k refl) ]
  ]

  bgp_extended_communities_kept :
      back.bgp_extended_communities ≡ list_when by_bgp e.bgp_extended_communities
  unfolding normalize_v1 specify_v1
  bgp_extended_communities_kept = elim (Bool-cases by_bgp) [
    | inl k ↦ rw (filtered_by_bgp k) (rw k (mem_to_str-str_to_mem e.bgp_extended_communities))
    | inr k ↦ elim (Bool-cases is_filtered) [ inl f ↦ rw f (rw k refl) | inr f ↦ rw f (rw k refl) ]
  ]

  -- What a redistribution profile is read back as from its struct: itself, without an action that is not
  -- known, and with nil in place of each list of a filter that has no members at all, be it the whole
  -- filter or its part for OSPF or BGP.
  pub normalize-specify_redist : normalize_v1 (specify_v1 e) ≡ record e {
    action = if is_action then e.action else "";
    types = list_when is_filtered e.types;
    interfaces = list_when is_filtered e.interfaces;
    destinations = list_when is_filtered e.destinations;
    next_hops = list_when is_filtered e.next_hops;
    ospf_path_types = list_when by_ospf e.ospf_path_types;
    ospf_areas = list_when by_ospf e.ospf_areas;
    ospf_tags = list_when by_ospf e.ospf_tags;
    bgp_communities = list_when by_bgp e.bgp_communities;
    bgp_extended_communities = list_when by_bgp e.bgp_extended_communities;
  }
  unfolding normalize_v1 specify_v1
  normalize-specify_redist = λ i. record e {
    action = action_kept i;
    types = types_kept i;
    interfaces = interfaces_kept i;
    destinations = destinations_kept i;
    next_hops = next_hops_kept i;
    ospf_path_types = ospf_path_types_kept i;
    ospf_areas = ospf_areas_kept i;
    ospf_tags = ospf_tags_kept i;
    bgp_communities = bgp_communities_kept i;
    bgp_extended_communities = bgp_extended_communities_kept i;
  }
