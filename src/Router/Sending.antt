-- ===== src/Router/Sending.antt =====
-- tp2/src/protorouter.py: the router's state, what it sends, and the resolution of addresses.
use fiuba_redes.Common.{
  ℕ, ◌+◌, ◌*◌, Option, none, some, List, [], ◌∷◌, ◌++◌, if◌then◌else◌, ◌==◌, nat_eq,
}
use fiuba_redes.Arp.{
  ArpHandler, enqueue_packet, get_mac, get_port, create_arp_request, create_arp_reply,
}
use fiuba_redes.Arp
use fiuba_redes.Frames.{
  Pox, Transport, tcp_segment, udp_datagram, icmp_message, unknown_transport, Ip, ip_payload,
  Ethernet, IpEvent, Match, Action, Message, flow_mod, packet_out,
}
use fiuba_redes.Icmp.{IcmpHandler, unit_eq}
use fiuba_redes.Nat.{NatHandler, protocol_eq}
use fiuba_redes.Translation

pub record ProtoRouter : Type 0 where
  pub connection : List Message
  pub arp_handler : ArpHandler
  pub nat_handler : NatHandler
  pub icmp_handler : IcmpHandler

abbrev pub init : ProtoRouter
init = record {
  connection = [];
  arp_handler = Arp.init;
  nat_handler = Translation.init;
  icmp_handler = Translation.init;
}

abbrev pub address : ℕ → ℕ → ℕ → ℕ → ℕ
address a b c d = ((a * 256 + b) * 256 + c) * 256 + d

abbrev pub private_subnet : ℕ
private_subnet = address 192 168 1 0

abbrev pub private_mask : ℕ
private_mask = 24

abbrev pub private_ip : ℕ
private_ip = address 192 168 1 254

abbrev pub public_ip : ℕ
public_ip = address 200 0 0 254

abbrev pub public_mac : ℕ
public_mac = address 0 170 170 170

abbrev pub private_mac : ℕ
private_mac = address 0 187 187 187

abbrev pub public_port : ℕ
public_port = 1

abbrev pub entry_timeout : ℕ
entry_timeout = 30

-- `self.connection.send(msg)`
unfoldable pub send : Message → ProtoRouter → ProtoRouter
send msg s = record s { connection = s.connection ++ (msg ∷ []) }

unfoldable pub install_flow : Match → List Action → ProtoRouter → ProtoRouter
install_flow fields actions = send (flow_mod entry_timeout fields actions)

unfoldable pub send_packet : Ethernet → ℕ → ℕ → ℕ → ProtoRouter → ProtoRouter
send_packet packet src_mac dst_mac out_port =
    send (packet_out (record packet { src = src_mac; dst = dst_mac }) out_port)

abbrev pub clear_transport : Transport → Transport
clear_transport (tcp_segment src dst csum rest) = tcp_segment src dst none rest
clear_transport (udp_datagram src dst csum rest) = udp_datagram src dst none rest
clear_transport (icmp_message id csum rest) = icmp_message id none rest
clear_transport (unknown_transport rest) = unknown_transport rest

unfoldable pub clear_checksums : Ip → Ip
clear_checksums ip_pkt = record ip_pkt { csum = none; next = clear_transport ip_pkt.next }

-- The frame of an event, with the IP packet that the handler has rewritten.
abbrev pub frame : IpEvent → Ip → Ethernet
frame event ip_pkt = record { src = event.src; dst = event.dst; payload = ip_payload ip_pkt }

-- Port 0 is false, so it counts as unknown.
abbrev pub both : Option ℕ → Option ℕ → Option (ℕ × ℕ)
both (some mac) (some port) = if port == 0 then none else some (mac, port)
both _ _ = none

module _ (pox : Pox) where
  unfoldable pub send_arp_reply : ℕ → ℕ → ℕ → ℕ → ℕ → ProtoRouter → ProtoRouter
  send_arp_reply target_ip target_mac target_port source_ip source_mac =
      send (create_arp_reply pox target_ip target_mac target_port source_ip source_mac)

  unfoldable pub send_arp_request : ℕ → ℕ → ℕ → ℕ → ProtoRouter → ProtoRouter
  send_arp_request target_ip out_port source_ip source_mac =
      send (create_arp_request pox target_ip out_port source_ip source_mac)

  unfoldable pub enqueue : ℕ → IpEvent → ProtoRouter → ProtoRouter
  enqueue ip_addr event s = record s { arp_handler = enqueue_packet ip_addr event s.arp_handler }

  -- A MAC address is never false, as POX's addresses have a length.
  unfoldable pub resolve_mac : ℕ → IpEvent → ℕ → ℕ → ℕ → ProtoRouter → Option ℕ × ProtoRouter
  resolve_mac ip_addr event arp_out_port arp_src_ip arp_src_mac s =
      elim (get_mac ip_addr s.arp_handler) [
        | none ↦ (
          none,
          send_arp_request ip_addr arp_out_port arp_src_ip arp_src_mac (enqueue ip_addr event s),
        )
        | some mac ↦ (some mac, s)
      ]

  unfoldable pub resolve_mac_and_port :
      ℕ → IpEvent → ℕ → ℕ → ℕ → ProtoRouter → Option (ℕ × ℕ) × ProtoRouter
  resolve_mac_and_port ip_addr event arp_out_port arp_src_ip arp_src_mac s =
      elim (both (get_mac ip_addr s.arp_handler) (get_port ip_addr s.arp_handler)) [
        | none ↦ (
          none,
          send_arp_request ip_addr arp_out_port arp_src_ip arp_src_mac (enqueue ip_addr event s),
        )
        | some found ↦ (some found, s)
      ]
