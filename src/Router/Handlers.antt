-- ===== src/Router/Handlers.antt =====
-- tp2/src/protorouter.py: `_get_transport_fields`, `handle_ip`, `handle_arp` and `_handle_PacketIn`.
-- What a handler did before it raised stays done.
use fiuba_redes.Common.{
  ℕ, ◌+◌, ◌&&◌, not, Bool, Option, none, some, List, [], ◌∷◌, ◌==◌, nat_eq, if◌then◌else◌,
}
use fiuba_redes.Exceptions.{Result, ok, raise, attribute_error}
use fiuba_redes.Frames.{
  Pox, Transport, tcp_segment, udp_datagram, icmp_message, unknown_transport, request, reply,
  unsupported, ArpPacket, arp_payload, ip_payload, other_payload, Ethernet, PacketIn, IpEvent,
}
use fiuba_redes.Arp.{learn_arp_entry, dequeue_packets}
use fiuba_redes.Method.{M, ◌>>=◌, ◌>>◌, return, update, call}
use fiuba_redes.Nat.{Protocol, tcp, udp, icmp}
use fiuba_redes.Router.Sending.{
  ProtoRouter, private_subnet, private_mask, private_ip, public_ip, public_mac, private_mac,
  send_packet, send_arp_reply,
}
use fiuba_redes.Router.Forwarding.{handle_outgoing, handle_incoming, handle_private_to_private}

-- Only an echo's `next` has an `id`.
unfoldable pub get_transport_fields : Transport → Result (Option (Protocol × ℕ × ℕ))
get_transport_fields (tcp_segment src dst csum rest) = ok (some (tcp, src, dst))
get_transport_fields (udp_datagram src dst csum rest) = ok (some (udp, src, dst))
get_transport_fields (icmp_message (some id) csum rest) = ok (some (icmp, id, id))
get_transport_fields (icmp_message none csum rest) = raise attribute_error
get_transport_fields (unknown_transport rest) = ok none

module _ (pox : Pox) where
  abbrev pub is_private : ℕ → Bool
  is_private ip = pox.in_network ip private_subnet private_mask

  unfoldable pub route : ℕ → ℕ → IpEvent → Protocol → ℕ → ℕ → ProtoRouter → ProtoRouter
  route now stamp event protocol src_port dst_port =
      if is_private event.ip_pkt.srcip
      then (if is_private event.ip_pkt.dstip
          then handle_private_to_private pox event
          else handle_outgoing pox now stamp event protocol src_port dst_port)
      else handle_incoming pox now stamp event protocol src_port dst_port

  unfoldable pub handle_ip : ℕ → ℕ → IpEvent → M ProtoRouter (Unit {0})
  handle_ip now stamp event = do
    fields ← call (get_transport_fields event.ip_pkt.next)
    elim fields [
      | none ↦ return tt
      | some (protocol, src_port, dst_port) ↦
          update (route now stamp event protocol src_port dst_port)
    ]

  -- Readings of the clock for the events that are resumed, one pair each.
  unfoldable pub resume : (ℕ → ℕ × ℕ) → ℕ → List IpEvent → M ProtoRouter (Unit {0})
  resume readings i [] = return tt
  resume readings i (event ∷ events) =
      handle_ip (readings i).0 (readings i).1 event >> resume readings (i + 1) events

  -- The router's own address that an ARP request asks for, and its MAC.
  unfoldable pub own_address : ℕ → Option (ℕ × ℕ)
  own_address target_ip =
      if target_ip == public_ip
      then some (public_ip, public_mac)
      else if target_ip == private_ip
      then some (private_ip, private_mac)
      else none

  unfoldable pub answer : ArpPacket → ℕ → ProtoRouter → ProtoRouter
  answer arp_pkt in_port s = elim arp_pkt.opcode [
    | request ↦ elim (own_address arp_pkt.protodst) [
      | none ↦ s
      | some (source_ip, source_mac) ↦
          send_arp_reply pox arp_pkt.protosrc arp_pkt.hwsrc in_port source_ip source_mac s
    ]
    | reply ↦ s
    | unsupported n ↦ s
  ]

  unfoldable pub learn : ℕ → ℕ → ArpPacket → ℕ → M ProtoRouter (List IpEvent)
  learn now stamp arp_pkt in_port s =
      let h = learn_arp_entry now stamp arp_pkt.protosrc arp_pkt.hwsrc in_port s.arp_handler in
      let (events, h') = dequeue_packets arp_pkt.protosrc h in
      (ok events, record s { arp_handler = h' })

  unfoldable pub handle_arp :
      ℕ → ℕ → (ℕ → ℕ × ℕ) → Ethernet → Option ArpPacket → ℕ → M ProtoRouter (Unit {0})
  handle_arp now stamp readings packet none in_port = return tt
  handle_arp now stamp readings packet (some arp_pkt) in_port = do
    events ← learn now stamp arp_pkt in_port
    resume readings 0 events
    if is_private arp_pkt.protosrc
          && is_private arp_pkt.protodst
          && not (arp_pkt.protodst == private_ip)
        then update (send_packet packet packet.src packet.dst pox.ofpp_flood)
        else update (answer arp_pkt in_port)

  unfoldable pub handle_packet_in : ℕ → ℕ → (ℕ → ℕ × ℕ) → PacketIn → M ProtoRouter (Unit {0})
  handle_packet_in now stamp readings event =
      if event.is_parsed
      then elim event.parsed.payload [
        | arp_payload arp_pkt ↦ handle_arp now stamp readings event.parsed arp_pkt event.port
        | ip_payload ip_pkt ↦ handle_ip now stamp (record {
          src = event.parsed.src;
          dst = event.parsed.dst;
          ip_pkt = ip_pkt;
          port = event.port;
        })
        | other_payload rest ↦ return tt
      ]
      else return tt
