-- ===== src/Netw/Tests.antt =====
-- GRE tunnels, proxy ids and redistribution profiles at concrete inputs.
use pango.Base.{[], ◌∷◌, none, some, ◌≡◌, pos, true}
use pango.Netw.Gre as Gre
use pango.Netw.ProxyId as ProxyId
use pango.Netw.Redist as Redist
use pango.Netw.Redist.RoundTrip.{normalize-specify_redist}
use pango.Netw.RoundTrip.{normalize-specify_proxy, normalize-specify_gre}

abbrev both : ProxyId.Entry
both = record ProxyId.no_entry {
  name = "p1";
  protocol_tcp_local = pos 443;
  protocol_udp_local = pos 53;
}

normalize-specify_proxy_example : ProxyId.normalize_v1 (ProxyId.specify_v1 both) ≡ record both {
  protocol_number = pos 0;
  protocol_tcp_local = pos 443;
  protocol_tcp_remote = pos 0;
  protocol_udp_local = pos 0;
  protocol_udp_remote = pos 0;
}
normalize-specify_proxy_example = normalize-specify_proxy both

abbrev tunnel : Gre.Entry
tunnel = record Gre.no_entry {
  name = "g1";
  local_address_type = Gre.local_address_type_ip;
  local_address_value = "10.1.1.1";
  enable_keep_alive = true;
}

normalize-specify_gre_example : Gre.normalize_v1 (Gre.specify_v1 tunnel) ≡ tunnel
normalize-specify_gre_example = normalize-specify_gre tunnel

abbrev statics : Redist.Entry
statics = record Redist.no_entry {
  name = "r1";
  priority = pos 10;
  action = Redist.action_redist;
  types = some ("static" ∷ []);
  ospf_areas = some [];
}

normalize-specify_redist_example :
    Redist.normalize_v1 (Redist.specify_v1 statics) ≡ record statics { ospf_areas = none }
normalize-specify_redist_example = normalize-specify_redist statics
