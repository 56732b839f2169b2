-- ===== src/Arp.antt =====
-- tp2/src/handlers/arp_handler.py, class ArpHandler: what is known of the neighbours, and the
-- packets that wait for an address. `time.time()` is an argument, in milliseconds; a method that
-- reads the clock twice takes two readings. `_dump_arp_table` only logs.
pub mod Learning
use fiuba_redes.Common.{
  ℕ, ◌-◌, ◌^◌, Bool, Option, none, some, List, [], ◌∷◌, ◌++◌, ltb, if◌then◌else◌, nat_eq,
}
use fiuba_redes.Common.Dict
use fiuba_redes.Common.Dict.{Dict}
use fiuba_redes.Frames.{
  Pox, Opcode, request, reply, ArpPacket, arp_payload, Ethernet, IpEvent, Message, packet_out,
}
use fiuba_redes.Translation.{entry_timeout}

pub record ArpEntry : Type 0 where
  pub mac : ℕ
  pub port : ℕ
  pub timestamp : ℕ

-- Only `_resolve_mac` and `_resolve_mac_and_port` put events into the queue, for IP packets.
pub record ArpHandler : Type 0 where
  pub arp_table : Dict ℕ ArpEntry
  pub waiting_queue : Dict ℕ (List IpEvent)

abbrev pub init : ArpHandler
init = record { arp_table = []; waiting_queue = [] }

abbrev pub queue_of : Option (List IpEvent) → List IpEvent
queue_of none = []
queue_of (some events) = events

unfoldable pub enqueue_packet : ℕ → IpEvent → ArpHandler → ArpHandler
enqueue_packet ip_addr event h = record h {
  waiting_queue =
      Dict.insert ip_addr (queue_of (Dict.lookup ip_addr h.waiting_queue) ++ (event ∷ []))
        h.waiting_queue;
}

unfoldable pub dequeue_packets : ℕ → ArpHandler → List IpEvent × ArpHandler
dequeue_packets ip_addr h = elim (Dict.lookup ip_addr h.waiting_queue) [
  | none ↦ ([], h)
  | some packets ↦ (packets, record h { waiting_queue = Dict.erase ip_addr h.waiting_queue })
]

-- `now - data["timestamp"] > ENTRY_TIMEOUT`
abbrev pub is_stale : ℕ → ArpEntry → Bool
is_stale now entry = ltb entry_timeout (now - entry.timestamp)

unfoldable pub stale : ℕ → Dict ℕ ArpEntry → List ℕ
stale now [] = []
stale now ((ip, data') ∷ items) =
    let rest = stale now items in if is_stale now data' then ip ∷ rest else rest

unfoldable pub erase_all : List ℕ → Dict ℕ ArpEntry → Dict ℕ ArpEntry
erase_all [] table = table
erase_all (ip ∷ ips) table = erase_all ips (Dict.erase ip table)

unfoldable pub reap_arp_table : ℕ → ArpHandler → ArpHandler
reap_arp_table now h = record h { arp_table = erase_all (stale now h.arp_table) h.arp_table }

unfoldable pub learn_arp_entry : ℕ → ℕ → ℕ → ℕ → ℕ → ArpHandler → ArpHandler
learn_arp_entry now stamp ip_addr mac_addr port h =
    let h' = reap_arp_table now h in
    record h' {
      arp_table =
          Dict.insert ip_addr (record { mac = mac_addr; port = port; timestamp = stamp })
            h'.arp_table;
    }

unfoldable pub get_mac : ℕ → ArpHandler → Option ℕ
get_mac ip_addr h = elim (Dict.lookup ip_addr h.arp_table) [ none ↦ none | some e ↦ some e.mac ]

unfoldable pub get_port : ℕ → ArpHandler → Option ℕ
get_port ip_addr h = elim (Dict.lookup ip_addr h.arp_table) [ none ↦ none | some e ↦ some e.port ]

abbrev pub zero_mac : ℕ
zero_mac = 0

abbrev pub broadcast_mac : ℕ
broadcast_mac = 2 ^ 48 - 1

abbrev build_eth : ℕ → ℕ → ArpPacket → Ethernet
build_eth src_mac dst_mac payload = record {
  src = src_mac;
  dst = dst_mac;
  payload = arp_payload (some payload);
}

module _ (pox : Pox) where
  abbrev build_arp : Opcode → ℕ → ℕ → ℕ → ℕ → ArpPacket
  build_arp opcode source_ip source_mac target_ip target_mac = record {
    hwtype = pox.hw_type_ethernet;
    prototype = pox.ip_type;
    hwlen = 6;
    protolen = 4;
    opcode = opcode;
    hwsrc = source_mac;
    protosrc = source_ip;
    hwdst = target_mac;
    protodst = target_ip;
  }

  unfoldable pub create_arp_reply : ℕ → ℕ → ℕ → ℕ → ℕ → Message
  create_arp_reply target_ip target_mac target_port source_ip source_mac =
      packet_out
        (build_eth source_mac target_mac
          (build_arp reply source_ip source_mac target_ip target_mac))
        target_port

  unfoldable pub create_arp_request : ℕ → ℕ → ℕ → ℕ → Message
  create_arp_request target_ip out_port source_ip source_mac =
      packet_out
        (build_eth source_mac broadcast_mac
          (build_arp request source_ip source_mac target_ip zero_mac))
        out_port
