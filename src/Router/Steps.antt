-- ===== src/Router/Steps.antt =====
-- What `_handle_outgoing` and `_handle_incoming` do with a packet of a session once the addresses are
-- known, one step each.
use fiuba_redes.Common.{
  ℕ, ◌≡◌, ◌≢◌, refl, ap, ◌∙◌, arith, Option, none, some, List, [], ◌∷◌, ◌++◌, nat_eq,
}
use fiuba_redes.Arp.{get_mac, get_port}
use fiuba_redes.Frames.{Pox, IpEvent, Message, flow_mod, packet_out}
use fiuba_redes.Nat.{
  NatHandler, Protocol, tcp, udp, icmp, protocol_eq, create_pat_entry, get_reverse_pat_entry,
}
use fiuba_redes.Router.Sending.{
  ProtoRouter, public_ip, private_mac, private_ip, public_port, public_mac, entry_timeout, send,
  install_flow, send_packet, clear_checksums, frame, resolve_mac, resolve_mac_and_port, both,
}
use fiuba_redes.Router.Forwarding.{
  with_dstport, session_match, actions_in, actions_out, translate_out, send_out, send_in,
  handle_outgoing, handle_incoming, deliver_segment,
}
use fiuba_redes.Translation.{key_eq, Entry, ReverseEntry}
use mathlib.Core.List.{append_assoc}

-- TCP and UDP, the protocols with ports.
abbrev pub HasPorts : Protocol → Type 0
HasPorts protocol = protocol ≢ icmp

-- A router with the NAT tables that an operation left.
abbrev pub with_nat : NatHandler → ProtoRouter → ProtoRouter
with_nat h s = record s { nat_handler = h }

-- What an incoming packet of a session makes the router send: two flows and the packet, readdressed
-- to the private host.
abbrev pub answer_of : IpEvent → ℕ → ℕ → ReverseEntry → ℕ → ℕ → List Message
answer_of event src_port dst_port entry target_mac target_port =
    flow_mod entry_timeout
      (session_match event.ip_pkt.srcip public_ip event.ip_pkt.protocol src_port dst_port
        event.port)
      (actions_in entry.private_ip entry.private_number target_mac target_port)
    ∷ flow_mod entry_timeout
        (session_match entry.private_ip event.ip_pkt.srcip event.ip_pkt.protocol
          entry.private_number src_port target_port)
        (actions_out dst_port event.src event.port)
    ∷ packet_out
        (record (frame event (
          clear_checksums (record event.ip_pkt {
            dstip = entry.private_ip;
            next = with_dstport entry.private_number event.ip_pkt.next;
          }))) { src = private_mac; dst = target_mac })
        target_port
    ∷ []

pub three :
    (c : List Message) (x y z : Message)
    → ((c ++ (x ∷ [])) ++ (y ∷ [])) ++ (z ∷ []) ≡ c ++ (x ∷ y ∷ z ∷ [])
three c x y z =
    append_assoc (c ++ (x ∷ [])) (y ∷ []) (z ∷ []) ∙ append_assoc c (x ∷ []) (y ∷ z ∷ [])

module _ (pox : Pox) (event : IpEvent) where
  resolve_mac_known :
      (ip out_port ip' mac' mac : ℕ) (s : ProtoRouter)
      → get_mac ip s.arp_handler ≡ some mac
      → resolve_mac pox ip event out_port ip' mac' s ≡ (some mac, s)
  unfolding resolve_mac
  resolve_mac_known ip out_port ip' mac' mac s known = rw (known, resolve_mac) refl

  resolve_mac_and_port_known :
      (ip out_port ip' mac' mac port : ℕ) (s : ProtoRouter)
      → both (get_mac ip s.arp_handler) (get_port ip s.arp_handler) ≡ some (mac, port)
      → resolve_mac_and_port pox ip event out_port ip' mac' s ≡ (some (mac, port), s)
  unfolding resolve_mac_and_port
  resolve_mac_and_port_known ip out_port ip' mac' mac port s known =
      rw (known, resolve_mac_and_port) refl

  pub handle_outgoing_known :
      (now stamp : ℕ) (protocol : Protocol) (src_port dst_port mac : ℕ) (s : ProtoRouter)
      → get_mac event.ip_pkt.dstip s.arp_handler ≡ some mac
      → handle_outgoing pox now stamp event protocol src_port dst_port s
        ≡ translate_out now stamp event protocol src_port dst_port mac s
  unfolding handle_outgoing
  handle_outgoing_known now stamp protocol src_port dst_port mac s known =
      ap
        (λ (r : Option ℕ × ProtoRouter). elim r.0 [
          | none ↦ r.1
          | some m ↦ translate_out now stamp event protocol src_port dst_port m r.1
        ])
        (resolve_mac_known event.ip_pkt.dstip public_port public_ip public_mac mac s known)

  pub translate_out-some :
      (now stamp : ℕ) (protocol : Protocol) (src_port dst_port mac : ℕ) (s : ProtoRouter)
      (x : Entry)
      → HasPorts protocol
      → (create_pat_entry now stamp protocol event.ip_pkt.srcip src_port public_ip s.nat_handler).0
        ≡ some x
      → translate_out now stamp event protocol src_port dst_port mac s
        ≡ send_out event src_port dst_port mac x (
            with_nat
              (create_pat_entry now stamp protocol event.ip_pkt.srcip src_port public_ip
                s.nat_handler).1
              s)
  unfolding translate_out
  translate_out-some now stamp icmp src_port dst_port mac s x ports made = absurd (ports refl)
  translate_out-some now stamp tcp src_port dst_port mac s x ports made =
      rw (made, translate_out) refl
  translate_out-some now stamp udp src_port dst_port mac s x ports made =
      rw (made, translate_out) refl

  -- What an outgoing packet of a session leaves of the tables.
  pub handle_outgoing-tables :
      (now stamp : ℕ) (protocol : Protocol) (src_port dst_port mac : ℕ) (s : ProtoRouter)
      (x : Entry)
      → HasPorts protocol
      → get_mac event.ip_pkt.dstip s.arp_handler ≡ some mac
      → (create_pat_entry now stamp protocol event.ip_pkt.srcip src_port public_ip s.nat_handler).0
        ≡ some x
      → let s' = handle_outgoing pox now stamp event protocol src_port dst_port s in
        (s'.arp_handler ≡ s.arp_handler)
        × (s'.nat_handler
            ≡ (create_pat_entry now stamp protocol event.ip_pkt.srcip src_port public_ip
                s.nat_handler).1)
  unfolding send_out install_flow send_packet send
  handle_outgoing-tables now stamp protocol src_port dst_port mac s x ports known made =
      rw
        (handle_outgoing_known now stamp protocol src_port dst_port mac s known
          ∙ translate_out-some now stamp protocol src_port dst_port mac s x ports made)
        (refl, refl)

  deliver_segment-some :
      (src_port dst_port mac port : ℕ) (s : ProtoRouter) (entry : ReverseEntry)
      → both (get_mac entry.private_ip s.arp_handler) (get_port entry.private_ip s.arp_handler)
        ≡ some (mac, port)
      → deliver_segment pox event src_port dst_port (some entry) s
        ≡ send_in event src_port dst_port entry mac port s
  unfolding deliver_segment
  deliver_segment-some src_port dst_port mac port s entry known =
      ap
        (λ (r : Option (ℕ × ℕ) × ProtoRouter). elim r.0 [
          | none ↦ r.1
          | some (m, p) ↦ send_in event src_port dst_port entry m p r.1
        ])
        (resolve_mac_and_port_known entry.private_ip pox.ofpp_flood private_ip private_mac mac port
          s known)

  send_in-connection :
      (src_port dst_port mac port : ℕ) (s : ProtoRouter) (entry : ReverseEntry)
      → (send_in event src_port dst_port entry mac port s).connection
        ≡ s.connection ++ answer_of event src_port dst_port entry mac port
  unfolding send_in install_flow send_packet send
  send_in-connection src_port dst_port mac port s entry = three s.connection _ _ _

  -- TCP and UDP packets for the public address go the way of their session.
  pub handle_incoming_here :
      (now stamp : ℕ) (protocol : Protocol) (src_port dst_port : ℕ) (s : ProtoRouter)
      → HasPorts protocol
      → event.ip_pkt.dstip ≡ public_ip
      → let (entry, h) = get_reverse_pat_entry now protocol public_ip dst_port s.nat_handler in
        handle_incoming pox now stamp event protocol src_port dst_port s
        ≡ deliver_segment pox event src_port dst_port entry (with_nat h s)
  unfolding handle_incoming
  handle_incoming_here now stamp icmp src_port dst_port s ports here = absurd (ports refl)
  handle_incoming_here now stamp tcp src_port dst_port s ports here = ground arith
  handle_incoming_here now stamp udp src_port dst_port s ports here = ground arith

  -- An incoming packet of a session whose host is known.
  pub handle_incoming-some :
      (now stamp : ℕ) (protocol : Protocol) (src_port dst_port mac port : ℕ) (s : ProtoRouter)
      (entry : ReverseEntry)
      → HasPorts protocol
      → event.ip_pkt.dstip ≡ public_ip
      → (get_reverse_pat_entry now protocol public_ip dst_port s.nat_handler).0 ≡ some entry
      → both (get_mac entry.private_ip s.arp_handler) (get_port entry.private_ip s.arp_handler)
        ≡ some (mac, port)
      → (handle_incoming pox now stamp event protocol src_port dst_port s).connection
        ≡ s.connection ++ answer_of event src_port dst_port entry mac port
  handle_incoming-some now stamp protocol src_port dst_port mac port s entry ports here found
        known =
      let h = (get_reverse_pat_entry now protocol public_ip dst_port s.nat_handler).1 in
      ap (λ (r : ProtoRouter). r.connection)
        (handle_incoming_here now stamp protocol src_port dst_port s ports here
          ∙ (ap
                (λ (o : Option ReverseEntry).
                  deliver_segment pox event src_port dst_port o (with_nat h s))
                found
              ∙ deliver_segment-some src_port dst_port mac port (with_nat h s) entry known))
      ∙ send_in-connection src_port dst_port mac port (with_nat h s) entry
