-- ===== src/Arp/Learning.antt =====
-- What the ARP table knows after an announcement, and the order of the packets that wait.
use fiuba_redes.Common.{
  ℕ, ◌≡◌, refl, ap, ◌∙◌, arith, Bool, true, false, Option, none, some, List, [], ◌∷◌, ◌++◌,
  if◌then◌else◌, nat_eq, ◌==◌,
}
use fiuba_redes.Common.Dict
use fiuba_redes.Common.Dict.{
  Dict, NodupKeys, lookup-insert, lookup-insert_self, lookup-erase, insert-NodupKeys,
  erase-NodupKeys,
}
use fiuba_redes.Frames.{IpEvent}
use fiuba_redes.Arp.{
  ArpHandler, ArpEntry, enqueue_packet, dequeue_packets, queue_of, is_stale, stale, erase_all,
  reap_arp_table, learn_arp_entry, get_mac,
}

-- What is left of an entry at a time.
abbrev pub fresh : ℕ → Option ArpEntry → Option ArpEntry
fresh now none = none
fresh now (some x) = if is_stale now x then none else some x

abbrev forgotten : ℕ → Option ArpEntry → Bool
forgotten now none = false
forgotten now (some x) = is_stale now x

abbrev listed : ℕ → List ℕ → Bool
listed k [] = false
listed k (i ∷ ips) = if k == i then true else listed k ips

lookup-erase_all :
    (k : ℕ) (ips : List ℕ) (d : Dict ℕ ArpEntry)
    → Dict.lookup k (erase_all ips d) ≡ (if listed k ips then none else Dict.lookup k d)
unfolding erase_all
lookup-erase_all k [] d = refl
lookup-erase_all k (i ∷ ips) d =
    ground (arith, lookup-erase_all k ips (Dict.erase i d), lookup-erase k i d)

erase_all-NodupKeys :
    (ips : List ℕ) (d : Dict ℕ ArpEntry) → NodupKeys d → NodupKeys (erase_all ips d)
unfolding erase_all
erase_all-NodupKeys [] d once = once
erase_all-NodupKeys (i ∷ ips) d once =
    erase_all-NodupKeys ips (Dict.erase i d) (erase-NodupKeys i d once)

listed-stale :
    (now k : ℕ) (d : Dict ℕ ArpEntry)
    → NodupKeys d
    → listed k (stale now d) ≡ forgotten now (Dict.lookup k d)
unfolding stale Dict.lookup
listed-stale now k [] _ = refl
listed-stale now k ((j, x) ∷ d) (new, once) =
    ground (
      arith,
      listed-stale now k d once,
      λ (same : k ≡ j). ap (λ (q : ℕ). Dict.lookup q d) same ∙ new,
    )

-- After an announcement the table has its address, and of the others those that are not too old.
pub lookup-learn_arp_entry :
    (now stamp j mac_addr port k : ℕ) (h : ArpHandler)
    → NodupKeys h.arp_table
    → Dict.lookup k (learn_arp_entry now stamp j mac_addr port h).arp_table ≡ (
        if k == j
        then some (record { mac = mac_addr; port = port; timestamp = stamp })
        else fresh now (Dict.lookup k h.arp_table))
unfolding learn_arp_entry reap_arp_table
lookup-learn_arp_entry now stamp j mac_addr port k h once =
    lookup-insert k j (record { mac = mac_addr; port = port; timestamp = stamp })
      (erase_all (stale now h.arp_table) h.arp_table)
    ∙ ground (
      arith,
      lookup-erase_all k (stale now h.arp_table) h.arp_table,
      listed-stale now k h.arp_table once,
    )

pub learn_arp_entry-NodupKeys :
    (now stamp j mac_addr port : ℕ) (h : ArpHandler)
    → NodupKeys h.arp_table
    → NodupKeys (learn_arp_entry now stamp j mac_addr port h).arp_table
unfolding learn_arp_entry reap_arp_table
learn_arp_entry-NodupKeys now stamp j mac_addr port h once =
    insert-NodupKeys j (record { mac = mac_addr; port = port; timestamp = stamp })
      (erase_all (stale now h.arp_table) h.arp_table)
      (erase_all-NodupKeys (stale now h.arp_table) h.arp_table once)

-- An announced address is known, whatever the table held.
pub get_mac-learn_arp_entry :
    (now stamp j mac_addr port : ℕ) (h : ArpHandler)
    → get_mac j (learn_arp_entry now stamp j mac_addr port h) ≡ some mac_addr
unfolding learn_arp_entry reap_arp_table get_mac
get_mac-learn_arp_entry now stamp j mac_addr port h =
    ap (λ (o : Option ArpEntry). elim o [ none ↦ none | some e ↦ some e.mac ])
      (lookup-insert_self j (record { mac = mac_addr; port = port; timestamp = stamp })
        (erase_all (stale now h.arp_table) h.arp_table))

learn_arp_entry-waiting_queue :
    (now stamp j mac_addr port : ℕ) (h : ArpHandler)
    → (learn_arp_entry now stamp j mac_addr port h).waiting_queue ≡ h.waiting_queue
unfolding learn_arp_entry reap_arp_table
learn_arp_entry-waiting_queue now stamp j mac_addr port h = refl

dequeue_packets-some :
    (k : ℕ) (events : List IpEvent) (h : ArpHandler)
    → Dict.lookup k h.waiting_queue ≡ some events
    → (dequeue_packets k h).0 ≡ events
unfolding dequeue_packets
dequeue_packets-some k events h e = rw (e, dequeue_packets) refl

-- The packets that wait for an address come out behind each other once it is announced.
pub dequeue_packets-enqueue_packet :
    (now stamp k mac_addr port : ℕ) (event : IpEvent) (h : ArpHandler)
    → (dequeue_packets k (learn_arp_entry now stamp k mac_addr port (enqueue_packet k event h))).0
      ≡ queue_of (Dict.lookup k h.waiting_queue) ++ (event ∷ [])
unfolding enqueue_packet
dequeue_packets-enqueue_packet now stamp k mac_addr port event h =
    dequeue_packets-some k (queue_of (Dict.lookup k h.waiting_queue) ++ (event ∷ []))
      (learn_arp_entry now stamp k mac_addr port (enqueue_packet k event h))
      (ap (λ (q : Dict ℕ (List IpEvent)). Dict.lookup k q)
          (learn_arp_entry-waiting_queue now stamp k mac_addr port (enqueue_packet k event h))
        ∙ lookup-insert_self k (queue_of (Dict.lookup k h.waiting_queue) ++ (event ∷ []))
            h.waiting_queue)
