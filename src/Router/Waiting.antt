-- ===== src/Router/Waiting.antt =====
-- Packets whose next hop is unknown: they wait, the router asks, and the answer brings them back.
use fiuba_redes.Common.{
  ℕ, ◌≡◌, refl, ap, ◌∙◌, Option, none, some, List, [], ◌∷◌, ◌++◌, inl, inr, nat_eq, Option-cases,
}
use fiuba_redes.Common.Dict
use fiuba_redes.Arp.{
  ArpHandler, enqueue_packet, dequeue_packets, queue_of, learn_arp_entry, get_mac,
  create_arp_request,
}
use fiuba_redes.Arp.Learning.{get_mac-learn_arp_entry, dequeue_packets-enqueue_packet}
use fiuba_redes.Exceptions.{ok}
use fiuba_redes.Frames.{Pox, ArpPacket, IpEvent}
use fiuba_redes.Nat.{Protocol}
use fiuba_redes.Router.Sending.{
  ProtoRouter, public_ip, public_mac, public_port, send, send_arp_request, enqueue, resolve_mac,
}
use fiuba_redes.Router.Forwarding.{translate_out, handle_outgoing}
use fiuba_redes.Router.Handlers.{learn}

resolve_mac_unknown :
    (pox : Pox) (event : IpEvent) (ip out_port ip' mac' : ℕ) (s : ProtoRouter)
    → get_mac ip s.arp_handler ≡ none
    → resolve_mac pox ip event out_port ip' mac' s
      ≡ (none, send_arp_request pox ip out_port ip' mac' (enqueue pox ip event s))
unfolding resolve_mac
resolve_mac_unknown pox event ip out_port ip' mac' s unknown = rw (unknown, resolve_mac) refl

-- The router asks for the next hop, keeps the packet, and sends nothing else.
handle_outgoing_unknown :
    (pox : Pox) (now stamp : ℕ) (event : IpEvent) (protocol : Protocol) (src_port dst_port : ℕ)
    (s : ProtoRouter)
    → get_mac event.ip_pkt.dstip s.arp_handler ≡ none
    → handle_outgoing pox now stamp event protocol src_port dst_port s
      ≡ send_arp_request pox event.ip_pkt.dstip public_port public_ip public_mac
          (enqueue pox event.ip_pkt.dstip event s)
unfolding handle_outgoing
handle_outgoing_unknown pox now stamp event protocol src_port dst_port s unknown =
    ap
      (λ (r : Option ℕ × ProtoRouter). elim r.0 [
        | none ↦ r.1
        | some m ↦ translate_out now stamp event protocol src_port dst_port m r.1
      ])
      (resolve_mac_unknown pox event event.ip_pkt.dstip public_port public_ip public_mac s unknown)

get_mac-dequeue_packets :
    (ip k : ℕ) (h : ArpHandler) → get_mac ip (dequeue_packets k h).1 ≡ get_mac ip h
unfolding get_mac dequeue_packets
get_mac-dequeue_packets ip k h = elim (Option-cases (Dict.lookup k h.waiting_queue)) [
  | inl e ↦ rw (e, dequeue_packets) refl
  | inr (events, e) ↦ rw (e, dequeue_packets) refl
]

-- An outgoing packet whose next hop is unknown makes the router broadcast one ARP request for it.
-- When that address announces itself, the packets that waited for it, and behind them this one, are
-- the ones to be resumed, and its MAC address is known then.
pub learn-handle_outgoing :
    (pox : Pox) (now stamp later stamp' : ℕ) (event : IpEvent) (protocol : Protocol)
    (src_port dst_port in_port : ℕ) (announced : ArpPacket) (s : ProtoRouter)
    → get_mac event.ip_pkt.dstip s.arp_handler ≡ none
    → announced.protosrc ≡ event.ip_pkt.dstip
    → let s' = handle_outgoing pox now stamp event protocol src_port dst_port s in
      let (events, s'') = learn pox later stamp' announced in_port s' in
      (s'.connection
        ≡ s.connection
          ++ (create_arp_request pox event.ip_pkt.dstip public_port public_ip public_mac ∷ []))
      × (events
          ≡ ok (
              queue_of (Dict.lookup event.ip_pkt.dstip s.arp_handler.waiting_queue)
              ++ (event ∷ [])))
      × (get_mac event.ip_pkt.dstip s''.arp_handler ≡ some announced.hwsrc)
unfolding learn send_arp_request enqueue send
learn-handle_outgoing pox now stamp later stamp' event protocol src_port dst_port in_port announced
      s unknown same =
    rw (handle_outgoing_unknown pox now stamp event protocol src_port dst_port s unknown, same)
      (
        refl,
        ap (λ (events : List IpEvent). ok events)
            (dequeue_packets-enqueue_packet later stamp' ip announced.hwsrc in_port event
              s.arp_handler),
        get_mac-dequeue_packets ip ip (
              learn_arp_entry later stamp' ip announced.hwsrc in_port
                (enqueue_packet ip event s.arp_handler))
            ∙ get_mac-learn_arp_entry later stamp' ip announced.hwsrc in_port
                (enqueue_packet ip event s.arp_handler),
      )
  where
    ip : ℕ
    ip = event.ip_pkt.dstip
