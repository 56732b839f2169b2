-- ===== src/Router/Forwarding.antt =====
-- tp2/src/protorouter.py: `_handle_outgoing`, `_handle_private_to_private` and `_handle_incoming`.
use fiuba_redes.Common.{ℕ, Option, none, some, List, [], ◌∷◌, ◌==◌, nat_eq, if◌then◌else◌}
use fiuba_redes.Frames.{
  Pox, Transport, tcp_segment, udp_datagram, icmp_message, IpEvent, Match, Action, set_nw_src,
  set_nw_dst, set_tp_src, set_tp_dst, set_dl_src, set_dl_dst, output,
}
use fiuba_redes.Icmp.{create_icmp_entry, get_reverse_icmp_entry}
use fiuba_redes.Nat.{Protocol, icmp, create_pat_entry, get_reverse_pat_entry}
use fiuba_redes.Router.Sending.{
  ProtoRouter, private_ip, public_ip, public_mac, private_mac, public_port, install_flow,
  send_packet, clear_checksums, frame, resolve_mac, resolve_mac_and_port,
}
use fiuba_redes.Translation.{Entry, ReverseEntry}

-- `ip_pkt.next.next.id = id`, `ip_pkt.next.srcport = port`, `ip_pkt.next.dstport = port`
abbrev pub with_id : ℕ → Transport → Transport
with_id id (icmp_message old csum rest) = icmp_message (some id) csum rest
with_id id other = other

abbrev pub with_srcport : ℕ → Transport → Transport
with_srcport port (tcp_segment src dst csum rest) = tcp_segment port dst csum rest
with_srcport port (udp_datagram src dst csum rest) = udp_datagram port dst csum rest
with_srcport port other = other

abbrev pub with_dstport : ℕ → Transport → Transport
with_dstport port (tcp_segment src dst csum rest) = tcp_segment src port csum rest
with_dstport port (udp_datagram src dst csum rest) = udp_datagram src port csum rest
with_dstport port other = other

-- The match of a flow for one direction of a TCP or UDP session.
abbrev pub session_match : ℕ → ℕ → ℕ → ℕ → ℕ → ℕ → Match
session_match nw_src nw_dst nw_proto tp_src tp_dst in_port = record {
  nw_src = nw_src;
  nw_dst = nw_dst;
  dl_type = 2048;
  nw_proto = some nw_proto;
  tp_src = some tp_src;
  tp_dst = some tp_dst;
  in_port = in_port;
}

abbrev pub host_match : ℕ → ℕ → ℕ → Match
host_match nw_src nw_dst in_port = record {
  nw_src = nw_src;
  nw_dst = nw_dst;
  dl_type = 2048;
  nw_proto = none;
  tp_src = none;
  tp_dst = none;
  in_port = in_port;
}

-- The actions that a frame takes out to the public side, in to the private one, and between hosts.
abbrev pub actions_out : ℕ → ℕ → ℕ → List Action
actions_out new_port dst_mac out_port =
    set_nw_src public_ip
    ∷ set_tp_src new_port
    ∷ set_dl_src public_mac
    ∷ set_dl_dst dst_mac
    ∷ output out_port
    ∷ []

abbrev pub actions_in : ℕ → ℕ → ℕ → ℕ → List Action
actions_in new_ip new_port dst_mac out_port =
    set_nw_dst new_ip
    ∷ set_tp_dst new_port
    ∷ set_dl_src private_mac
    ∷ set_dl_dst dst_mac
    ∷ output out_port
    ∷ []

abbrev pub actions_across : ℕ → ℕ → List Action
actions_across dst_mac out_port = set_dl_src private_mac ∷ set_dl_dst dst_mac ∷ output out_port ∷ []

module _ (event : IpEvent) where
  -- `_handle_outgoing` once there is an entry, for ICMP and for TCP and UDP.
  unfoldable pub send_icmp_out : ℕ → Entry → ProtoRouter → ProtoRouter
  send_icmp_out target_mac entry =
      let ip_pkt = event.ip_pkt in
      send_packet
        (frame event (
          clear_checksums
            (record ip_pkt { srcip = public_ip; next = with_id entry.public_number ip_pkt.next })))
        public_mac target_mac public_port

  unfoldable pub send_out : ℕ → ℕ → ℕ → Entry → ProtoRouter → ProtoRouter
  send_out src_port dst_port target_mac entry s =
      let ip_pkt = event.ip_pkt in
      let new_port = entry.public_number in
      let s1 =
        install_flow
          (session_match ip_pkt.srcip ip_pkt.dstip ip_pkt.protocol src_port dst_port event.port)
          (actions_out new_port target_mac public_port) s in
      let s2 =
        install_flow
          (session_match ip_pkt.dstip public_ip ip_pkt.protocol dst_port new_port public_port)
          (actions_in ip_pkt.srcip src_port event.src event.port) s1 in
      send_packet
        (frame event (
          clear_checksums
            (record ip_pkt { srcip = public_ip; next = with_srcport new_port ip_pkt.next })))
        public_mac target_mac public_port s2

  -- `_handle_incoming` once the private host's address is known.
  unfoldable pub send_icmp_in : ReverseEntry → ℕ → ℕ → ProtoRouter → ProtoRouter
  send_icmp_in entry target_mac target_port =
      let ip_pkt = event.ip_pkt in
      send_packet
        (frame event (
          clear_checksums (record ip_pkt {
            dstip = entry.private_ip;
            next = with_id entry.private_number ip_pkt.next;
          })))
        private_mac target_mac target_port

  unfoldable pub send_in : ℕ → ℕ → ReverseEntry → ℕ → ℕ → ProtoRouter → ProtoRouter
  send_in src_port dst_port entry target_mac target_port s =
      let ip_pkt = event.ip_pkt in
      let s1 =
        install_flow
          (session_match ip_pkt.srcip public_ip ip_pkt.protocol src_port dst_port event.port)
          (actions_in entry.private_ip entry.private_number target_mac target_port) s in
      let s2 =
        install_flow
          (session_match entry.private_ip ip_pkt.srcip ip_pkt.protocol entry.private_number src_port
            target_port)
          (actions_out dst_port event.src event.port) s1 in
      send_packet
        (frame event (
          clear_checksums (record ip_pkt {
            dstip = entry.private_ip;
            next = with_dstport entry.private_number ip_pkt.next;
          })))
        private_mac target_mac target_port s2

module _ (now stamp : ℕ) (event : IpEvent) where
  unfoldable pub translate_out : Protocol → ℕ → ℕ → ℕ → ProtoRouter → ProtoRouter
  translate_out icmp src_port dst_port target_mac s =
      let (entry, h) =
        create_icmp_entry now stamp event.ip_pkt.srcip src_port public_ip s.icmp_handler in
      let s' = record s { icmp_handler = h } in
      elim entry [ none ↦ s' | some x ↦ send_icmp_out event target_mac x s' ]
  translate_out protocol src_port dst_port target_mac s =
      let (entry, h) =
        create_pat_entry now stamp protocol event.ip_pkt.srcip src_port public_ip s.nat_handler in
      let s' = record s { nat_handler = h } in
      elim entry [ none ↦ s' | some x ↦ send_out event src_port dst_port target_mac x s' ]

module _ (pox : Pox) (event : IpEvent) where
  -- The private host of an entry is looked for on every port.
  abbrev pub resolve_host : ℕ → ProtoRouter → Option (ℕ × ℕ) × ProtoRouter
  resolve_host ip = resolve_mac_and_port pox ip event pox.ofpp_flood private_ip private_mac

  unfoldable pub deliver_icmp : Option ReverseEntry → ProtoRouter → ProtoRouter
  deliver_icmp none s = s
  deliver_icmp (some entry) s =
      let (found, s') = resolve_host entry.private_ip s in
      elim found [ none ↦ s' | some (mac, port) ↦ send_icmp_in event entry mac port s' ]

  unfoldable pub deliver_segment : ℕ → ℕ → Option ReverseEntry → ProtoRouter → ProtoRouter
  deliver_segment src_port dst_port none s = s
  deliver_segment src_port dst_port (some entry) s =
      let (found, s') = resolve_host entry.private_ip s in
      elim found [
        | none ↦ s'
        | some (mac, port) ↦ send_in event src_port dst_port entry mac port s'
      ]

  unfoldable pub handle_private_to_private : ProtoRouter → ProtoRouter
  handle_private_to_private s =
      let ip_pkt = event.ip_pkt in
      let (found, s') = resolve_host ip_pkt.dstip s in
      elim found [
        | none ↦ s'
        | some (mac, port) ↦
            let s1 =
              install_flow (host_match ip_pkt.srcip ip_pkt.dstip event.port)
                (actions_across mac port) s' in
            let s2 =
              install_flow (host_match ip_pkt.dstip ip_pkt.srcip port)
                (actions_across event.src event.port) s1 in
            send_packet (frame event (clear_checksums ip_pkt)) private_mac mac port s2
      ]

module _ (pox : Pox) (now stamp : ℕ) (event : IpEvent) where
  unfoldable pub handle_outgoing : Protocol → ℕ → ℕ → ProtoRouter → ProtoRouter
  handle_outgoing protocol src_port dst_port s =
      let (found, s') =
        resolve_mac pox event.ip_pkt.dstip event public_port public_ip public_mac s in
      elim found [
        | none ↦ s'
        | some target_mac ↦ translate_out now stamp event protocol src_port dst_port target_mac s'
      ]

  unfoldable pub handle_incoming : Protocol → ℕ → ℕ → ProtoRouter → ProtoRouter
  handle_incoming icmp src_port dst_port s =
      let (entry, h) = get_reverse_icmp_entry now public_ip dst_port s.icmp_handler in
      deliver_icmp pox event entry (record s { icmp_handler = h })
  handle_incoming protocol src_port dst_port s =
      if event.ip_pkt.dstip == public_ip
      then (let (entry, h) =
            get_reverse_pat_entry now protocol event.ip_pkt.dstip dst_port s.nat_handler in
          deliver_segment pox event src_port dst_port entry (record s { nat_handler = h }))
      else s
