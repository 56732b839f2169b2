-- ===== src/Router/Flows.antt =====
-- The flows that the router installs against the packets that it sends itself: a switch that has
-- the flow does to the next packet what the router did to the first. `Matches` and `run` are what
-- OpenFlow 1.0 prescribes for the fields and the actions that the router uses.
use fiuba_redes.Common.{ℕ, ◌≡◌, refl, ap, ◌∙◌, Option, none, some, List, [], ◌∷◌, ◌++◌}
use fiuba_redes.Arp.{get_mac, get_port}
use fiuba_redes.Frames.{
  Pox, Transport, tcp_segment, udp_datagram, IpEvent, Match, Action, set_nw_src, set_nw_dst,
  set_tp_src, set_tp_dst, set_dl_src, set_dl_dst, output, Message, flow_mod, packet_out,
}
use fiuba_redes.Nat.{Protocol, create_pat_entry, get_reverse_pat_entry}
use fiuba_redes.Router.Sending.{
  ProtoRouter, public_ip, entry_timeout, send, install_flow, send_packet, clear_checksums, frame,
  both,
}
use fiuba_redes.Router.Forwarding.{
  with_srcport, with_dstport, send_out, handle_outgoing, handle_incoming,
}
use fiuba_redes.Router.Steps.{
  HasPorts, three, handle_outgoing_known, translate_out-some, handle_incoming-some,
}
use fiuba_redes.Translation.{Entry, ReverseEntry}

abbrev pub ports_of : Transport → Option (ℕ × ℕ)
ports_of (tcp_segment src dst csum rest) = some (src, dst)
ports_of (udp_datagram src dst csum rest) = some (src, dst)
ports_of other = none

-- A field of the match that is not set fits every packet.
abbrev pub Fits : Option ℕ → Option ℕ → Type 0
Fits none value = Unit
Fits (some wanted) value = value ≡ some wanted

abbrev pub source : Option (ℕ × ℕ) → Option ℕ
source none = none
source (some (src, dst)) = some src

abbrev pub destination : Option (ℕ × ℕ) → Option ℕ
destination none = none
destination (some (src, dst)) = some dst

pub record Matches (fields : Match) (event : IpEvent) : Type 0 where
  pub from : event.ip_pkt.srcip ≡ fields.nw_src
  pub to : event.ip_pkt.dstip ≡ fields.nw_dst
  -- The type of IPv4, which an IpEvent has.
  pub kind : fields.dl_type ≡ 2048
  pub under : Fits fields.nw_proto (some event.ip_pkt.protocol)
  pub source_port : Fits fields.tp_src (source (ports_of event.ip_pkt.next))
  pub destination_port : Fits fields.tp_dst (destination (ports_of event.ip_pkt.next))
  pub arrival : event.port ≡ fields.in_port

-- The packet after the actions, with the port that it leaves by in place of the one it came by.
abbrev pub run : List Action → IpEvent → IpEvent
run [] e = e
run (set_nw_src ip ∷ rest) e = run rest (record e { ip_pkt = record e.ip_pkt { srcip = ip } })
run (set_nw_dst ip ∷ rest) e = run rest (record e { ip_pkt = record e.ip_pkt { dstip = ip } })
run (set_tp_src port ∷ rest) e =
    run rest (record e { ip_pkt = record e.ip_pkt { next = with_srcport port e.ip_pkt.next } })
run (set_tp_dst port ∷ rest) e =
    run rest (record e { ip_pkt = record e.ip_pkt { next = with_dstport port e.ip_pkt.next } })
run (set_dl_src mac ∷ rest) e = run rest (record e { src = mac })
run (set_dl_dst mac ∷ rest) e = run rest (record e { dst = mac })
run (output port ∷ rest) e = run rest (record e { port = port })

-- The packet-out for such a packet: its checksums are computed anew.
abbrev pub forwarded : IpEvent → Message
forwarded e = packet_out (frame e (clear_checksums e.ip_pkt)) e.port

-- Three messages: a flow that matches the event, a flow for the way back, and what the first flow's
-- actions make of the event.
pub record Agrees (event : IpEvent) (sent : List Message) : Type 0 where
  pub fields : Match
  pub actions : List Action
  pub back : Match
  pub back_actions : List Action
  pub messages :
      sent
      ≡ flow_mod entry_timeout fields actions
        ∷ flow_mod entry_timeout back back_actions
        ∷ forwarded (run actions event)
        ∷ []
  pub matched : Matches fields event

-- An outgoing TCP or UDP packet of a known next hop and a session makes the router send two flows
-- and a packet: the first flow matches the packet, and its actions make of it what the router sends.
pub handle_outgoing-Agrees :
    (pox : Pox) (now stamp : ℕ) (event : IpEvent) (protocol : Protocol) (src_port dst_port mac : ℕ)
    (s : ProtoRouter) (x : Entry)
    → HasPorts protocol
    → ports_of event.ip_pkt.next ≡ some (src_port, dst_port)
    → get_mac event.ip_pkt.dstip s.arp_handler ≡ some mac
    → (create_pat_entry now stamp protocol event.ip_pkt.srcip src_port public_ip s.nat_handler).0
      ≡ some x
    → (sent : List Message) × Agrees event sent
      × ((handle_outgoing pox now stamp event protocol src_port dst_port s).connection
          ≡ s.connection ++ sent)
unfolding send_out install_flow send_packet send
handle_outgoing-Agrees pox now stamp event protocol src_port dst_port mac s x has ports known made =
    (
      _,
      record {
        fields = _;
        actions = _;
        back = _;
        back_actions = _;
        messages = refl;
        matched = record {
          from = refl;
          to = refl;
          kind = refl;
          under = refl;
          source_port = ap source ports;
          destination_port = ap destination ports;
          arrival = refl;
        };
      },
      ap (λ (r : ProtoRouter). r.connection)
            (handle_outgoing_known pox event now stamp protocol src_port dst_port mac s known
              ∙ translate_out-some pox event now stamp protocol src_port dst_port mac s x has made)
          ∙ three s.connection _ _ _,
    )

-- An incoming TCP or UDP packet of a session whose host is known makes the router send two flows
-- and a packet: the first flow matches the packet, and its actions make of it what the router sends.
pub handle_incoming-Agrees :
    (pox : Pox) (now stamp : ℕ) (event : IpEvent) (protocol : Protocol)
    (src_port dst_port mac port : ℕ) (s : ProtoRouter) (entry : ReverseEntry)
    → HasPorts protocol
    → ports_of event.ip_pkt.next ≡ some (src_port, dst_port)
    → event.ip_pkt.dstip ≡ public_ip
    → (get_reverse_pat_entry now protocol public_ip dst_port s.nat_handler).0 ≡ some entry
    → both (get_mac entry.private_ip s.arp_handler) (get_port entry.private_ip s.arp_handler)
      ≡ some (mac, port)
    → (sent : List Message) × Agrees event sent
      × ((handle_incoming pox now stamp event protocol src_port dst_port s).connection
          ≡ s.connection ++ sent)
handle_incoming-Agrees pox now stamp event protocol src_port dst_port mac port s entry has ports
      here found known =
    (
      _,
      record {
        fields = _;
        actions = _;
        back = _;
        back_actions = _;
        messages = refl;
        matched = record {
          from = refl;
          to = here;
          kind = refl;
          under = refl;
          source_port = ap source ports;
          destination_port = ap destination ports;
          arrival = refl;
        };
      },
      handle_incoming-some pox event now stamp protocol src_port dst_port mac port s entry has here
          found known,
    )
