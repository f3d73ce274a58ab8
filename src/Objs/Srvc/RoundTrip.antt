-- ===== src/Objs/Srvc/RoundTrip.antt =====
-- What a service object is read back as from its XML struct, in the version that the client says.
use pango.Base.{
  ℤ, pos, String, true, false, Bool, ◌||◌, ◌&&◌, ◌≡◌, ◌==◌, eq_iff, arith, if◌then◌else◌,
  Bool-cases, inl, inr,
}
use pango.Util.Member.{mem_to_str-str_to_mem}
use pango.Version.{Number, gte}
use pango.Objs.Srvc.{
  Entry, protocol_tcp, protocol_udp, protocol_sctp, since_v2, specify_v1, specify_v2, normalize_v1,
  normalize_v2, specify, normalize,
}

module _ (e : Entry) where
  abbrev pub is_tcp : Bool
  is_tcp = e.protocol == protocol_tcp

  abbrev pub is_udp : Bool
  is_udp = e.protocol == protocol_udp

  abbrev pub is_sctp : Bool
  is_sctp = e.protocol == protocol_sctp

  -- What is kept, by whether the version knows SCTP and the override of the session timeout.
  abbrev pub is_known : Bool → Bool
  is_known new = is_tcp || is_udp || (new && is_sctp)

  abbrev pub is_overridden : Bool → Bool
  is_overridden new = new && e.override_session_timeout && (is_tcp || is_udp)

  abbrev pub when : Bool → ℤ → ℤ
  when b n = if b then n else pos 0

  abbrev pub text_when : Bool → String → String
  text_when b s = if b then s else ""

  abbrev pub survivor : Bool → Entry
  survivor new = record e {
    protocol = text_when (is_known new) e.protocol;
    source_port = text_when (is_known new) e.source_port;
    destination_port = text_when (is_known new) e.destination_port;
    override_session_timeout = is_overridden new;
    override_timeout = when (is_overridden new) e.override_timeout;
    override_half_closed_timeout =
        when (is_overridden new && is_tcp) e.override_half_closed_timeout;
    override_time_wait_timeout = when (is_overridden new && is_tcp) e.override_time_wait_timeout;
  }

  protocol_v1 : (normalize_v1 (specify_v1 e)).protocol ≡ (survivor false).protocol
  unfolding normalize_v1 specify_v1
  protocol_v1 = ground (
    arith,
    eq_iff e.protocol protocol_tcp,
    eq_iff e.protocol protocol_udp,
    eq_iff e.protocol protocol_sctp,
  )

  source_port_v1 : (normalize_v1 (specify_v1 e)).source_port ≡ (survivor false).source_port
  unfolding normalize_v1 specify_v1
  source_port_v1 = ground (
    arith,
    eq_iff e.protocol protocol_tcp,
    eq_iff e.protocol protocol_udp,
    eq_iff e.protocol protocol_sctp,
  )

  destination_port_v1 :
      (normalize_v1 (specify_v1 e)).destination_port ≡ (survivor false).destination_port
  unfolding normalize_v1 specify_v1
  destination_port_v1 = ground (
    arith,
    eq_iff e.protocol protocol_tcp,
    eq_iff e.protocol protocol_udp,
    eq_iff e.protocol protocol_sctp,
  )

  normalize-specify_v1 : normalize_v1 (specify_v1 e) ≡ survivor false
  unfolding normalize_v1 specify_v1
  normalize-specify_v1 = λ i. record e {
    protocol = protocol_v1 i;
    source_port = source_port_v1 i;
    destination_port = destination_port_v1 i;
    tags = mem_to_str-str_to_mem e.tags i;
    override_session_timeout = false;
    override_timeout = pos 0;
    override_half_closed_timeout = pos 0;
    override_time_wait_timeout = pos 0;
  }

  protocol_v2 : (normalize_v2 (specify_v2 e)).protocol ≡ (survivor true).protocol
  unfolding normalize_v2 specify_v2
  protocol_v2 = ground (
    arith,
    eq_iff e.protocol protocol_tcp,
    eq_iff e.protocol protocol_udp,
    eq_iff e.protocol protocol_sctp,
  )

  source_port_v2 : (normalize_v2 (specify_v2 e)).source_port ≡ (survivor true).source_port
  unfolding normalize_v2 specify_v2
  source_port_v2 = ground (
    arith,
    eq_iff e.protocol protocol_tcp,
    eq_iff e.protocol protocol_udp,
    eq_iff e.protocol protocol_sctp,
  )

  destination_port_v2 :
      (normalize_v2 (specify_v2 e)).destination_port ≡ (survivor true).destination_port
  unfolding normalize_v2 specify_v2
  destination_port_v2 = ground (
    arith,
    eq_iff e.protocol protocol_tcp,
    eq_iff e.protocol protocol_udp,
    eq_iff e.protocol protocol_sctp,
  )

  override_session_timeout_v2 :
      (normalize_v2 (specify_v2 e)).override_session_timeout
      ≡ (survivor true).override_session_timeout
  unfolding normalize_v2 specify_v2
  override_session_timeout_v2 = ground (
    arith,
    eq_iff e.protocol protocol_tcp,
    eq_iff e.protocol protocol_udp,
    eq_iff e.protocol protocol_sctp,
  )

  override_timeout_v2 :
      (normalize_v2 (specify_v2 e)).override_timeout ≡ (survivor true).override_timeout
  unfolding normalize_v2 specify_v2
  override_timeout_v2 = ground (
    arith,
    eq_iff e.protocol protocol_tcp,
    eq_iff e.protocol protocol_udp,
    eq_iff e.protocol protocol_sctp,
  )

  override_half_closed_timeout_v2 :
      (normalize_v2 (specify_v2 e)).override_half_closed_timeout
      ≡ (survivor true).override_half_closed_timeout
  unfolding normalize_v2 specify_v2
  override_half_closed_timeout_v2 = ground (
    arith,
    eq_iff e.protocol protocol_tcp,
    eq_iff e.protocol protocol_udp,
    eq_iff e.protocol protocol_sctp,
  )

  override_time_wait_timeout_v2 :
      (normalize_v2 (specify_v2 e)).override_time_wait_timeout
      ≡ (survivor true).override_time_wait_timeout
  unfolding normalize_v2 specify_v2
  override_time_wait_timeout_v2 = ground (
    arith,
    eq_iff e.protocol protocol_tcp,
    eq_iff e.protocol protocol_udp,
    eq_iff e.protocol protocol_sctp,
  )

  normalize-specify_v2 : normalize_v2 (specify_v2 e) ≡ survivor true
  unfolding normalize_v2 specify_v2
  normalize-specify_v2 = λ i. record e {
    protocol = protocol_v2 i;
    source_port = source_port_v2 i;
    destination_port = destination_port_v2 i;
    override_session_timeout = override_session_timeout_v2 i;
    override_timeout = override_timeout_v2 i;
    override_half_closed_timeout = override_half_closed_timeout_v2 i;
    override_time_wait_timeout = override_time_wait_timeout_v2 i;
    tags = mem_to_str-str_to_mem e.tags i;
  }

  -- What a service object is read back as from the XML struct of the version: its protocol and ports
  -- where the version knows the protocol, which is SCTP only from 8.1 on, and the override of its session
  -- timeout from 8.1 on and for TCP and UDP, where the timeouts of a closing session are those of TCP; all
  -- else of these parameters is lost, and what remains is as it was.
  pub normalize-specify_srvc :
      (version : Number) → normalize (specify version e) ≡ survivor (gte version since_v2)
  unfolding normalize specify
  normalize-specify_srvc version = elim (Bool-cases (gte version since_v2)) [
    | inl new ↦ rw new normalize-specify_v2
    | inr old ↦ rw old normalize-specify_v1
  ]
