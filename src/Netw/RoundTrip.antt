-- ===== src/Netw/RoundTrip.antt =====
-- What GRE tunnels, proxy ids and BFD profiles are read back as from their XML structs.
use pango.Base.{
  ℤ, pos, int_eq, int_eq_iff, not, Bool, ◌||◌, ◌&&◌, ◌≡◌, refl, ◌==◌, eq_iff, arith, if◌then◌else◌,
  Bool-cases, inl, inr,
}
use pango.Util.Flag.{as_bool-yes_no}
use pango.Netw.Gre
use pango.Netw.Gre.{local_address_type_ip, local_address_type_floating_ip}
use pango.Netw.ProxyId
use pango.Netw.Bfd

module _ (e : Bfd.Entry) where
  bfd_ttl : (Bfd.normalize_v1 (Bfd.specify_v1 e)).minimum_rx_ttl ≡ e.minimum_rx_ttl
  unfolding Bfd.normalize_v1 Bfd.specify_v1
  bfd_ttl = ground (arith, int_eq_iff e.minimum_rx_ttl (pos 0))

  -- A BFD profile survives its struct.
  pub normalize-specify_bfd : Bfd.normalize_v1 (Bfd.specify_v1 e) ≡ e
  unfolding Bfd.normalize_v1 Bfd.specify_v1
  normalize-specify_bfd = λ i. record e { minimum_rx_ttl = bfd_ttl i }

module _ (e : ProxyId.Entry) where
  -- The protocols are tried in this order, and the parameters of the later ones are lost.
  abbrev pub is_number : Bool
  is_number = not (int_eq e.protocol_number (pos 0))

  abbrev pub is_tcp : Bool
  is_tcp = not (int_eq e.protocol_tcp_local (pos 0)) || not (int_eq e.protocol_tcp_remote (pos 0))

  abbrev pub unless : Bool → ℤ → ℤ
  unless b n = if b then pos 0 else n

  abbrev back : ProxyId.Entry
  back = ProxyId.normalize_v1 (ProxyId.specify_v1 e)

  any_kept : back.protocol_any ≡ e.protocol_any
  unfolding ProxyId.normalize_v1 ProxyId.specify_v1
  any_kept = ground arith

  number_kept : back.protocol_number ≡ unless e.protocol_any e.protocol_number
  unfolding ProxyId.normalize_v1 ProxyId.specify_v1
  number_kept = ground (arith, int_eq_iff e.protocol_number (pos 0))

  tcp_local_kept :
      back.protocol_tcp_local ≡ unless (e.protocol_any || is_number) e.protocol_tcp_local
  unfolding ProxyId.normalize_v1 ProxyId.specify_v1
  tcp_local_kept =
      ground
        (arith, int_eq_iff e.protocol_tcp_local (pos 0), int_eq_iff e.protocol_tcp_remote (pos 0))

  tcp_remote_kept :
      back.protocol_tcp_remote ≡ unless (e.protocol_any || is_number) e.protocol_tcp_remote
  unfolding ProxyId.normalize_v1 ProxyId.specify_v1
  tcp_remote_kept =
      ground
        (arith, int_eq_iff e.protocol_tcp_local (pos 0), int_eq_iff e.protocol_tcp_remote (pos 0))

  udp_local_kept :
      back.protocol_udp_local ≡ unless (e.protocol_any || is_number || is_tcp) e.protocol_udp_local
  unfolding ProxyId.normalize_v1 ProxyId.specify_v1
  udp_local_kept =
      ground
        (arith, int_eq_iff e.protocol_udp_local (pos 0), int_eq_iff e.protocol_udp_remote (pos 0))

  udp_remote_kept :
      back.protocol_udp_remote
      ≡ unless (e.protocol_any || is_number || is_tcp) e.protocol_udp_remote
  unfolding ProxyId.normalize_v1 ProxyId.specify_v1
  udp_remote_kept =
      ground
        (arith, int_eq_iff e.protocol_udp_local (pos 0), int_eq_iff e.protocol_udp_remote (pos 0))

  -- What a proxy id is read back as from its struct: the protocols are any, a number, TCP and UDP, and
  -- of these it keeps the first that is given, without the parameters of the later ones.
  pub normalize-specify_proxy : ProxyId.normalize_v1 (ProxyId.specify_v1 e) ≡ record e {
    protocol_number = unless e.protocol_any e.protocol_number;
    protocol_tcp_local = unless (e.protocol_any || is_number) e.protocol_tcp_local;
    protocol_tcp_remote = unless (e.protocol_any || is_number) e.protocol_tcp_remote;
    protocol_udp_local = unless (e.protocol_any || is_number || is_tcp) e.protocol_udp_local;
    protocol_udp_remote = unless (e.protocol_any || is_number || is_tcp) e.protocol_udp_remote;
  }
  unfolding ProxyId.normalize_v1 ProxyId.specify_v1
  normalize-specify_proxy = λ i. record e {
    protocol_any = any_kept i;
    protocol_number = number_kept i;
    protocol_tcp_local = tcp_local_kept i;
    protocol_tcp_remote = tcp_remote_kept i;
    protocol_udp_local = udp_local_kept i;
    protocol_udp_remote = udp_remote_kept i;
  }

module _ (e : Gre.Entry) where
  abbrev gre_back : Gre.Entry
  gre_back = Gre.normalize_v1 (Gre.specify_v1 e)

  -- Whether the local address has a type that is known and a value.
  abbrev pub is_addressed : Bool
  is_addressed =
      (e.local_address_type == local_address_type_ip
        || e.local_address_type == local_address_type_floating_ip)
      && not (e.local_address_value == "")

  address_type : gre_back.local_address_type ≡ (if is_addressed then e.local_address_type else "")
  unfolding Gre.normalize_v1 Gre.specify_v1
  address_type = elim (Bool-cases (e.local_address_type == local_address_type_ip)) [
    | inl ip ↦ rw ip (ground (arith, eq_iff e.local_address_type local_address_type_ip))
    | inr no_ip ↦ elim (Bool-cases (e.local_address_type == local_address_type_floating_ip)) [
      | inl floating ↦
          rw (no_ip, floating)
            (ground (arith, eq_iff e.local_address_type local_address_type_floating_ip))
      | inr unknown ↦ rw (no_ip, unknown) refl
    ]
  ]

  address_value :
      gre_back.local_address_value ≡ (if is_addressed then e.local_address_value else "")
  unfolding Gre.normalize_v1 Gre.specify_v1
  address_value = elim (Bool-cases (e.local_address_type == local_address_type_ip)) [
    | inl ip ↦ rw ip (ground (arith, eq_iff e.local_address_type local_address_type_ip))
    | inr no_ip ↦ elim (Bool-cases (e.local_address_type == local_address_type_floating_ip)) [
      | inl floating ↦
          rw (no_ip, floating)
            (ground (arith, eq_iff e.local_address_type local_address_type_floating_ip))
      | inr unknown ↦ rw (no_ip, unknown) refl
    ]
  ]

  enable_keep_alive_kept : gre_back.enable_keep_alive ≡ e.enable_keep_alive
  unfolding Gre.normalize_v1 Gre.specify_v1
  enable_keep_alive_kept = ground (arith, as_bool-yes_no e.enable_keep_alive)

  keep_alive_interval_kept : gre_back.keep_alive_interval ≡ e.keep_alive_interval
  unfolding Gre.normalize_v1 Gre.specify_v1
  keep_alive_interval_kept = ground (arith, int_eq_iff e.keep_alive_interval (pos 0))

  keep_alive_retry_kept : gre_back.keep_alive_retry ≡ e.keep_alive_retry
  unfolding Gre.normalize_v1 Gre.specify_v1
  keep_alive_retry_kept = ground (arith, int_eq_iff e.keep_alive_retry (pos 0))

  keep_alive_hold_timer_kept : gre_back.keep_alive_hold_timer ≡ e.keep_alive_hold_timer
  unfolding Gre.normalize_v1 Gre.specify_v1
  keep_alive_hold_timer_kept = ground (arith, int_eq_iff e.keep_alive_hold_timer (pos 0))

  -- What a GRE tunnel is read back as from its struct: itself where its local address has a type that is
  -- known and a value, and otherwise itself with neither the type nor the value of that address.
  pub normalize-specify_gre : Gre.normalize_v1 (Gre.specify_v1 e) ≡ record e {
    local_address_type = if is_addressed then e.local_address_type else "";
    local_address_value = if is_addressed then e.local_address_value else "";
  }
  unfolding Gre.normalize_v1 Gre.specify_v1
  normalize-specify_gre = λ i. record e {
    local_address_type = address_type i;
    local_address_value = address_value i;
    copy_tos = as_bool-yes_no e.copy_tos i;
    enable_keep_alive = enable_keep_alive_kept i;
    keep_alive_interval = keep_alive_interval_kept i;
    keep_alive_retry = keep_alive_retry_kept i;
    keep_alive_hold_timer = keep_alive_hold_timer_kept i;
    disabled = as_bool-yes_no e.disabled i;
  }
