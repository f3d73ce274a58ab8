-- ===== src/Poli/Pbf/RoundTrip.antt =====
-- A rule of policy-based forwarding survives its XML struct, in the version that the client says.
use pango.Base.{false, ◌≡◌, sym, subst, ◌∙◌, Bool-cases, inl, inr}
use pango.Util.Flag.{as_bool-yes_no}
use pango.Util.Member.{mem_to_str-str_to_mem}
use pango.Util.Target.{MapIsDistinct, nil_if_empty}
use pango.Version.{Number, gte}
use pango.Poli.Security.RoundTrip.{target_negated-target_info, target_map-target_info}
use pango.Poli.Pbf.{Entry}
use pango.Poli.Pbf.Parts.{
  read_from, write_zones, write_interfaces, read_hop_v1, read_hop_v2, write_hop_v1, write_hop_v2,
  read_action, write_action, read_return, write_return,
}
use pango.Poli.Pbf.Xml.{
  from_of, action_of, return_of, fqdn_since, specify_v1, specify_v2, normalize_v1, normalize_v2,
  specify, normalize,
}
use pango.Poli.Pbf.Forwarding.{
  Source, source_from, read_from-write, read_hop-write_v1, read_hop-write_v2, Verdict,
  verdict_action, IsVerdict, read_action-write, IsReturn, read_return-write,
}

-- A rule whose parameters fit together, for a version of PAN-OS.
pub record IsSound (version : Number) (e : Entry) : Type 0 where
  pub source : Source
  pub from : from_of e ≡ source_from source
  pub verdict : Verdict
  pub action : action_of e ≡ verdict_action verdict
  pub known : IsVerdict version verdict
  pub returned : IsReturn (return_of e)
  pub distinct : MapIsDistinct e.targets
  pub targets : nil_if_empty e.targets ≡ e.targets
  pub uuid : gte version fqdn_since ≡ false → e.uuid ≡ ""

module _ (version : Number) (e : Entry) (h : IsSound version e) where
  from_kept : read_from (write_zones (from_of e)) (write_interfaces (from_of e)) ≡ from_of e
  from_kept =
      subst (λ x. read_from (write_zones x) (write_interfaces x) ≡ x) (sym h.from)
        (read_from-write h.source)

  return_kept : read_return (write_return (return_of e)) ≡ return_of e
  return_kept = read_return-write (return_of e) h.returned

  action_kept_v1 :
      gte version fqdn_since ≡ false
      → read_action read_hop_v1 (write_action write_hop_v1 (action_of e)) ≡ action_of e
  action_kept_v1 old =
      subst (λ x. read_action read_hop_v1 (write_action write_hop_v1 x) ≡ x) (sym h.action)
        (read_action-write read_hop_v1 write_hop_v1 version
          (λ hop k. read_hop-write_v1 version hop old k) h.verdict h.known)

  action_kept_v2 : read_action read_hop_v2 (write_action write_hop_v2 (action_of e)) ≡ action_of e
  action_kept_v2 =
      subst (λ x. read_action read_hop_v2 (write_action write_hop_v2 x) ≡ x) (sym h.action)
        (read_action-write read_hop_v2 write_hop_v2 version (read_hop-write_v2 version) h.verdict
          h.known)

  kept_v1 : gte version fqdn_since ≡ false → normalize_v1 (specify_v1 e) ≡ e
  unfolding normalize_v1 specify_v1
  kept_v1 old = λ i. record {
    name = e.name;
    description = e.description;
    tags = mem_to_str-str_to_mem e.tags i;
    from_type = (from_kept i).type;
    from_values = (from_kept i).values;
    source_addresses = mem_to_str-str_to_mem e.source_addresses i;
    source_users = mem_to_str-str_to_mem e.source_users i;
    negate_source = as_bool-yes_no e.negate_source i;
    destination_addresses = mem_to_str-str_to_mem e.destination_addresses i;
    negate_destination = as_bool-yes_no e.negate_destination i;
    applications = mem_to_str-str_to_mem e.applications i;
    services = mem_to_str-str_to_mem e.services i;
    schedule = e.schedule;
    disabled = as_bool-yes_no e.disabled i;
    action = (action_kept_v1 old i).action;
    forward_vsys = (action_kept_v1 old i).vsys;
    forward_egress_interface = (action_kept_v1 old i).egress_interface;
    forward_next_hop_type = (action_kept_v1 old i).hop.type;
    forward_next_hop_value = (action_kept_v1 old i).hop.value;
    forward_monitor_profile = (action_kept_v1 old i).monitor.profile;
    forward_monitor_ip_address = (action_kept_v1 old i).monitor.ip_address;
    forward_monitor_disable_if_unreachable = (action_kept_v1 old i).monitor.disable_if_unreachable;
    enable_enforce_symmetric_return = (return_kept i).enabled;
    symmetric_return_addresses = (return_kept i).addresses;
    active_active_device_binding = e.active_active_device_binding;
    targets = (target_map-target_info e.targets e.negate_target h.distinct ∙ h.targets) i;
    negate_target = target_negated-target_info e.targets e.negate_target i;
    uuid = sym (h.uuid old) i;
  }

  kept_v2 : normalize_v2 (specify_v2 e) ≡ e
  unfolding normalize_v2 specify_v2
  kept_v2 = λ i. record {
    name = e.name;
    description = e.description;
    tags = mem_to_str-str_to_mem e.tags i;
    from_type = (from_kept i).type;
    from_values = (from_kept i).values;
    source_addresses = mem_to_str-str_to_mem e.source_addresses i;
    source_users = mem_to_str-str_to_mem e.source_users i;
    negate_source = as_bool-yes_no e.negate_source i;
    destination_addresses = mem_to_str-str_to_mem e.destination_addresses i;
    negate_destination = as_bool-yes_no e.negate_destination i;
    applications = mem_to_str-str_to_mem e.applications i;
    services = mem_to_str-str_to_mem e.services i;
    schedule = e.schedule;
    disabled = as_bool-yes_no e.disabled i;
    action = (action_kept_v2 i).action;
    forward_vsys = (action_kept_v2 i).vsys;
    forward_egress_interface = (action_kept_v2 i).egress_interface;
    forward_next_hop_type = (action_kept_v2 i).hop.type;
    forward_next_hop_value = (action_kept_v2 i).hop.value;
    forward_monitor_profile = (action_kept_v2 i).monitor.profile;
    forward_monitor_ip_address = (action_kept_v2 i).monitor.ip_address;
    forward_monitor_disable_if_unreachable = (action_kept_v2 i).monitor.disable_if_unreachable;
    enable_enforce_symmetric_return = (return_kept i).enabled;
    symmetric_return_addresses = (return_kept i).addresses;
    active_active_device_binding = e.active_active_device_binding;
    targets = (target_map-target_info e.targets e.negate_target h.distinct ∙ h.targets) i;
    negate_target = target_negated-target_info e.targets e.negate_target i;
    uuid = e.uuid;
  }

  -- A rule of policy-based forwarding is read back from the XML struct of the version as it was,
  -- on these conditions. FromType is zone or interface and FromValues is not nil, or both are
  -- left out. The action is forward, forward to a vsys, discard or no PBF, with no parameter of
  -- another action, or it is left out with all those parameters. The next hop is an IP address
  -- or, from version 9.0 on, a name, with a value that is not empty, or its type and its value
  -- are left out. There is a UUID only from version 9.0 on. The addresses of the symmetric return
  -- are nil where it is not enabled and there are none. The map of the targets holds no key twice
  -- and is not an empty map.
  pub normalize-specify_pbf : normalize (specify version e) ≡ e
  unfolding normalize specify
  normalize-specify_pbf = elim (Bool-cases (gte version fqdn_since)) [
    | inl new ↦ rw new kept_v2
    | inr old ↦ rw old (kept_v1 old)
  ]
