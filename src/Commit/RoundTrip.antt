-- ===== src/Commit/RoundTrip.antt =====
-- What a commit of a Panorama restricts can be read back from the struct that is sent.
use pango.Base.{
  String, List, [], ◌∷◌, Bool, true, false, Option, none, some, items, is_empty, ◌≡◌, refl, ◌==◌,
  arith, Bool-cases, inl, inr,
}
use pango.Util.Member.{MemberType, mem_to_str, mem_to_str-str_to_mem}
use pango.Commit.{
  Commit, PanoramaCommit, PanoPartialCommit, is_partial, pano_partial, panorama_element,
  excluded_if,
}

-- What a commit restricts: the parts of the configuration, by their names.
pub record Restriction : Type 0 where
  pub admins : List String
  pub device_groups : List String
  pub templates : List String
  pub template_stacks : List String
  pub wildfire_appliances : List String
  pub wildfire_clusters : List String
  pub log_collectors : List String
  pub log_collector_groups : List String
  pub without_device_and_network : Bool
  pub without_shared_objects : Bool

abbrev is_excluded : String → Bool
is_excluded text = text == "excluded"

is_excluded-excluded_if : (b : Bool) → is_excluded (excluded_if b) ≡ b
is_excluded-excluded_if true = refl
is_excluded-excluded_if false = refl

abbrev named : Option MemberType → List String
named m = items (mem_to_str m)

abbrev pub unrestricted : Restriction
unrestricted = record {
  admins = [];
  device_groups = [];
  templates = [];
  template_stacks = [];
  wildfire_appliances = [];
  wildfire_clusters = [];
  log_collectors = [];
  log_collector_groups = [];
  without_device_and_network = false;
  without_shared_objects = false;
}

abbrev restriction_of : Option PanoPartialCommit → Restriction
restriction_of none = unrestricted
restriction_of (some p) = record {
  admins = named p.admins;
  device_groups = named p.device_groups;
  templates = named p.templates;
  template_stacks = named p.template_stacks;
  wildfire_appliances = named p.wildfire_appliances;
  wildfire_clusters = named p.wildfire_clusters;
  log_collectors = named p.log_collectors;
  log_collector_groups = named p.log_collector_groups;
  without_device_and_network = is_excluded p.exclude_device_and_network;
  without_shared_objects = is_excluded p.exclude_shared_objects;
}

abbrev part_of :
    Option (Option PanoPartialCommit) → Option PanoPartialCommit → Option PanoPartialCommit
part_of (some p) q = p
part_of none q = q

abbrev is_some : Option (Option PanoPartialCommit) → Bool
is_some none = false
is_some (some p) = true

-- What a struct says: the description, whether it is forced, and the restriction.
abbrev pub said : Commit PanoPartialCommit → String × Bool × Restriction
said c = (c.description, is_some c.force, restriction_of (part_of c.force c.partial))

abbrev pub meant : PanoramaCommit → Restriction
meant o = record {
  admins = items o.admins;
  device_groups = items o.device_groups;
  templates = items o.templates;
  template_stacks = items o.template_stacks;
  wildfire_appliances = items o.wildfire_appliances;
  wildfire_clusters = items o.wildfire_clusters;
  log_collectors = items o.log_collectors;
  log_collector_groups = items o.log_collector_groups;
  without_device_and_network = o.exclude_device_and_network;
  without_shared_objects = o.exclude_shared_objects;
}

nil_of : (l : List String) → is_empty l ≡ true → [] ≡ l
nil_of [] h = refl
nil_of (x ∷ l) h = absurd (ground (arith, h))

restriction-pano_partial : (o : PanoramaCommit) → restriction_of (pano_partial o) ≡ meant o
restriction-pano_partial o = elim (Bool-cases (is_partial o)) [
  | inl e ↦ rw e (λ i. record {
    admins = items (mem_to_str-str_to_mem o.admins i);
    device_groups = items (mem_to_str-str_to_mem o.device_groups i);
    templates = items (mem_to_str-str_to_mem o.templates i);
    template_stacks = items (mem_to_str-str_to_mem o.template_stacks i);
    wildfire_appliances = items (mem_to_str-str_to_mem o.wildfire_appliances i);
    wildfire_clusters = items (mem_to_str-str_to_mem o.wildfire_clusters i);
    log_collectors = items (mem_to_str-str_to_mem o.log_collectors i);
    log_collector_groups = items (mem_to_str-str_to_mem o.log_collector_groups i);
    without_device_and_network = is_excluded-excluded_if o.exclude_device_and_network i;
    without_shared_objects = is_excluded-excluded_if o.exclude_shared_objects i;
  })
  | inr e ↦
      let admins_nil : [] ≡ items o.admins = nil_of (items o.admins) (ground (arith, e)) in
      let device_groups_nil : [] ≡ items o.device_groups =
        nil_of (items o.device_groups) (ground (arith, e)) in
      let templates_nil : [] ≡ items o.templates = nil_of (items o.templates) (ground (arith, e)) in
      let template_stacks_nil : [] ≡ items o.template_stacks =
        nil_of (items o.template_stacks) (ground (arith, e)) in
      let wildfire_appliances_nil : [] ≡ items o.wildfire_appliances =
        nil_of (items o.wildfire_appliances) (ground (arith, e)) in
      let wildfire_clusters_nil : [] ≡ items o.wildfire_clusters =
        nil_of (items o.wildfire_clusters) (ground (arith, e)) in
      let log_collectors_nil : [] ≡ items o.log_collectors =
        nil_of (items o.log_collectors) (ground (arith, e)) in
      let log_collector_groups_nil : [] ≡ items o.log_collector_groups =
        nil_of (items o.log_collector_groups) (ground (arith, e)) in
      let network : false ≡ o.exclude_device_and_network = ground (arith, e) in
      let shared : false ≡ o.exclude_shared_objects = ground (arith, e) in
      rw e (λ i. record {
        admins = admins_nil i;
        device_groups = device_groups_nil i;
        templates = templates_nil i;
        template_stacks = template_stacks_nil i;
        wildfire_appliances = wildfire_appliances_nil i;
        wildfire_clusters = wildfire_clusters_nil i;
        log_collectors = log_collectors_nil i;
        log_collector_groups = log_collector_groups_nil i;
        without_device_and_network = network i;
        without_shared_objects = shared i;
      })
]

-- The struct of a commit of a Panorama says what was asked for: its description, whether it is forced,
-- and every part that is chosen or left out.
pub said-panorama_element :
    (o : PanoramaCommit) → said (panorama_element o) ≡ (o.description, o.force, meant o)
unfolding panorama_element
said-panorama_element o = elim (Bool-cases o.force) [
  | inl e ↦ rw e (λ i. (o.description, true, restriction-pano_partial o i))
  | inr e ↦ rw e (λ i. (o.description, false, restriction-pano_partial o i))
]
