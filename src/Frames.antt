-- ===== src/Frames.antt =====
-- What the router of tp2 reads and writes of POX's frames and OpenFlow messages. Addresses are
-- numbers: 32 bits for IPAddr, 48 for EthAddr. A frame's `type` field is the constructor of its
-- payload, a packet-out carries the frame that `pack` is called on, and the parts of POX that the
-- router only calls are the record Pox.
use fiuba_redes.Common.{ℕ, Bool, Option, List}

-- `addr.inNetwork(network, mask)` and the constants of POX and OpenFlow.
pub record Pox : Type 0 where
  pub in_network : ℕ → ℕ → ℕ → Bool
  pub ofpp_flood : ℕ
  pub hw_type_ethernet : ℕ
  pub ip_type : ℕ

pub data Opcode : Type 0 where
  request reply : Opcode
  unsupported : ℕ → Opcode

pub record ArpPacket : Type 0 where
  pub hwtype : ℕ
  pub prototype : ℕ
  pub hwlen : ℕ
  pub protolen : ℕ
  pub opcode : Opcode
  pub hwsrc : ℕ
  pub protosrc : ℕ
  pub hwdst : ℕ
  pub protodst : ℕ

-- `ip_pkt.next`: source port, destination port, checksum and the rest for tcp and udp; for icmp
-- the `id` of its `next`, which only an echo has, the checksum and the rest.
pub data Transport : Type 0 where
  tcp_segment udp_datagram : ℕ → ℕ → Option ℕ → List ℕ → Transport
  icmp_message : Option ℕ → Option ℕ → List ℕ → Transport
  unknown_transport : List ℕ → Transport

pub record Ip : Type 0 where
  pub srcip : ℕ
  pub dstip : ℕ
  pub protocol : ℕ
  pub csum : Option ℕ
  pub next : Transport

pub data Payload : Type 0 where
  -- `payload` is None in a frame that ends after its header.
  arp_payload : Option ArpPacket → Payload
  ip_payload : Ip → Payload
  other_payload : List ℕ → Payload

pub record Ethernet : Type 0 where
  pub src : ℕ
  pub dst : ℕ
  pub payload : Payload

-- A PacketIn event: whether POX parsed the frame, the frame, and the switch port.
pub record PacketIn : Type 0 where
  pub is_parsed : Bool
  pub parsed : Ethernet
  pub port : ℕ

-- A PacketIn event whose payload is an IP packet.
pub record IpEvent : Type 0 where
  pub src : ℕ
  pub dst : ℕ
  pub ip_pkt : Ip
  pub port : ℕ

pub record Match : Type 0 where
  pub nw_src : ℕ
  pub nw_dst : ℕ
  pub dl_type : ℕ
  pub nw_proto : Option ℕ
  pub tp_src : Option ℕ
  pub tp_dst : Option ℕ
  pub in_port : ℕ

pub data Action : Type 0 where
  set_nw_src set_nw_dst set_tp_src set_tp_dst set_dl_src set_dl_dst output : ℕ → Action

pub data Message : Type 0 where
  -- ofp_flow_mod: idle timeout, match, actions
  flow_mod : ℕ → Match → List Action → Message
  -- ofp_packet_out: the frame and the port of its one output action
  packet_out : Ethernet → ℕ → Message
