-- ===== src/Router/Sessions.antt =====
-- What the router lets through: the answers of its sessions come back, and nothing else gets in.
use fiuba_redes.Common.{
  ℕ, ◌+◌, ◌≤◌, ◌≡◌, ◌≢◌, refl, sym, ap, ◌∙◌, arith, true, false, Option, none, some, ◌++◌, nat_eq,
  Option-cases, inl, inr, ℕ_discrete,
}
use fiuba_redes.Common.Dict
use fiuba_redes.Arp.{ArpHandler, get_mac, get_port}
use fiuba_redes.Frames.{Pox, IpEvent}
use fiuba_redes.Nat.{
  NatHandler, Protocol, tcp, udp, icmp, protocol_eq, nat_key, create_pat_entry,
  get_reverse_pat_entry,
}
use fiuba_redes.Router.Sending.{ProtoRouter, public_ip, both}
use fiuba_redes.Router.Forwarding.{handle_outgoing, handle_incoming, deliver_segment}
use fiuba_redes.Translation
use fiuba_redes.Translation.{Key, key_eq, Entry, ReverseEntry, Translation, is_expired}
use fiuba_redes.Translation.Validity.{IsValid, reverse_entry, private_key, entry_of}
use fiuba_redes.Translation.Sessions.{get_reverse_entry-create_entry, get_reverse_entry-some_iff}
use fiuba_redes.Router.Steps.{
  HasPorts, with_nat, answer_of, handle_outgoing-tables, handle_incoming_here, handle_incoming-some,
}

-- What leaves a session's private host comes back to it. Let the router handle an outgoing TCP or
-- UDP packet whose next hop is known and get the entry x for it. Until x expires, a packet that
-- arrives at x's public address under the same protocol makes the router send, besides two flows,
-- that packet with the private host's address and port in it, to the host's MAC address and port,
-- if the ARP table knows them.
pub handle_incoming-handle_outgoing :
    (pox : Pox) (now stamp later stamp' : ℕ) (out in' : IpEvent) (protocol : Protocol)
    (src_port dst_port from mac host_mac host_port : ℕ) (s : ProtoRouter) (x : Entry)
    → HasPorts protocol
    → IsValid s.nat_handler
    → get_mac out.ip_pkt.dstip s.arp_handler ≡ some mac
    → both (get_mac out.ip_pkt.srcip s.arp_handler) (get_port out.ip_pkt.srcip s.arp_handler)
      ≡ some (host_mac, host_port)
    → (create_pat_entry now stamp protocol out.ip_pkt.srcip src_port public_ip s.nat_handler).0
      ≡ some x
    → x.public_ip ≡ public_ip
    → later ≤ x.timestamp + Translation.entry_timeout
    → in'.ip_pkt.dstip ≡ public_ip
    → let s' = handle_outgoing pox now stamp out protocol src_port dst_port s in
      (handle_incoming pox later stamp' in' protocol from x.public_number s').connection
      ≡ s'.connection
        ++ answer_of in' from x.public_number
            (reverse_entry (nat_key protocol out.ip_pkt.srcip src_port) x)
            host_mac
            host_port
unfolding get_reverse_pat_entry create_pat_entry
handle_incoming-handle_outgoing pox now stamp later stamp' out in' protocol src_port dst_port from
      mac host_mac host_port s x ports valid known host made public soon here =
    handle_incoming-some pox in' later stamp' protocol from x.public_number host_mac host_port s'
      entry ports here
      (ap (λ (h : NatHandler). (get_reverse_pat_entry later protocol public_ip x.public_number h).0)
          tables.1
        ∙ (ap (λ (ip : ℕ). (get_reverse_pat_entry later protocol ip x.public_number opened).0)
              (sym public)
            ∙ get_reverse_entry-create_entry now stamp later
                (nat_key protocol out.ip_pkt.srcip src_port) public_ip s.nat_handler x valid made
                soon))
      (ap (λ (h : ArpHandler). both (get_mac out.ip_pkt.srcip h) (get_port out.ip_pkt.srcip h))
          tables.0
        ∙ host)
  where
    s' : ProtoRouter
    s' = handle_outgoing pox now stamp out protocol src_port dst_port s

    opened : NatHandler
    opened =
        (create_pat_entry now stamp protocol out.ip_pkt.srcip src_port public_ip s.nat_handler).1

    tables : (s'.arp_handler ≡ s.arp_handler) × (s'.nat_handler ≡ opened)
    tables =
        handle_outgoing-tables pox out now stamp protocol src_port dst_port mac s x ports known made

    entry : ReverseEntry
    entry = reverse_entry (nat_key protocol out.ip_pkt.srcip src_port) x

handle_incoming_elsewhere :
    (pox : Pox) (now stamp : ℕ) (event : IpEvent) (protocol : Protocol) (src_port dst_port : ℕ)
    (s : ProtoRouter)
    → HasPorts protocol
    → event.ip_pkt.dstip ≢ public_ip
    → handle_incoming pox now stamp event protocol src_port dst_port s ≡ s
unfolding handle_incoming
handle_incoming_elsewhere pox now stamp event icmp src_port dst_port s ports away =
    absurd (ports refl)
handle_incoming_elsewhere pox now stamp event tcp src_port dst_port s ports away = ground arith
handle_incoming_elsewhere pox now stamp event udp src_port dst_port s ports away = ground arith

-- No live entry holds the public port under the protocol.
abbrev pub IsUnused : ℕ → Protocol → ℕ → NatHandler → Type 0
IsUnused now protocol port h =
    (k : Key Protocol) (x : Entry)
    → Dict.lookup k h.table ≡ some x
    → k.tag ≡ protocol
    → x.public_ip ≡ public_ip
    → x.public_number ≡ port
    → is_expired now x ≡ true

get_reverse_pat_entry_unused :
    (now : ℕ) (protocol : Protocol) (port : ℕ) (h : NatHandler)
    → IsValid h
    → IsUnused now protocol port h
    → (get_reverse_pat_entry now protocol public_ip port h).0 ≡ none
unfolding get_reverse_pat_entry
get_reverse_pat_entry_unused now protocol port h valid unused =
    elim (Option-cases (get_reverse_pat_entry now protocol public_ip port h).0) [
      | inl e ↦ e
      | inr (y, e) ↦
          let r = nat_key protocol public_ip port in
          let (there, fresh) = (get_reverse_entry-some_iff now r y h valid).0 e in
          absurd
            (clash (sym (unused (private_key r y) (entry_of r y) there refl refl refl) ∙ fresh))
    ]
  where
    clash : true ≡ false → ⊥
    clash e = ground arith

-- Nothing else gets in: a TCP or UDP packet from outside for a public port that no live entry holds
-- under its protocol makes the router send nothing and look for nobody.
pub handle_incoming_unused :
    (pox : Pox) (now stamp : ℕ) (event : IpEvent) (protocol : Protocol) (src_port dst_port : ℕ)
    (s : ProtoRouter)
    → HasPorts protocol
    → IsValid s.nat_handler
    → IsUnused now protocol dst_port s.nat_handler
    → let s' = handle_incoming pox now stamp event protocol src_port dst_port s in
      (s'.connection ≡ s.connection) × (s'.arp_handler ≡ s.arp_handler)
unfolding deliver_segment
handle_incoming_unused pox now stamp event protocol src_port dst_port s ports valid unused =
    elim (ℕ_discrete event.ip_pkt.dstip public_ip) [
      | no away ↦
          rw (handle_incoming_elsewhere pox now stamp event protocol src_port dst_port s ports away)
            (refl, refl)
      | yes here ↦
          let h = (get_reverse_pat_entry now protocol public_ip dst_port s.nat_handler).1 in
          let none_found =
            get_reverse_pat_entry_unused now protocol dst_port s.nat_handler valid unused in
          rw
            (handle_incoming_here pox event now stamp protocol src_port dst_port s ports here
              ∙ ap
                  (λ (o : Option ReverseEntry).
                    deliver_segment pox event src_port dst_port o (with_nat h s))
                  none_found)
            (refl, refl)
    ]
