-- ===== src/Tests/Router.antt =====
-- The router with a host on the private side and a server outside, which it knows both.
use fiuba_redes.Common.{
  ℕ, ◌/◌, ◌^◌, ◌-◌, ◌≡◌, refl, ap, sym, ◌∙◌, arith, Option, none, some, List, [], ◌∷◌, ◌++◌, nat_eq,
  ◌==◌, inl, inr, ℕ_discrete,
}
use fiuba_redes.Common.Dict
use fiuba_redes.Common.Dict.{NodupKeys, lookup-nil, lookup-insert_inv}
use fiuba_redes.Arp.{ArpEntry, queue_of, learn_arp_entry, create_arp_request, get_mac, get_port}
use fiuba_redes.Arp
use fiuba_redes.Exceptions.{ok}
use fiuba_redes.Router.Flows.{Agrees, handle_outgoing-Agrees, handle_incoming-Agrees}
use fiuba_redes.Router.Handlers.{learn}
use fiuba_redes.Router.Waiting.{learn-handle_outgoing}
use fiuba_redes.Frames.{Pox, ArpPacket, reply, Message, tcp_segment, IpEvent}
use fiuba_redes.Nat.{
  Protocol, tcp, protocol_eq, nat_key, create_pat_entry, get_reverse_pat_entry, NatHandler,
}
use fiuba_redes.Router.Sending.{
  ProtoRouter, init, public_ip, public_mac, public_port, address, both,
}
use fiuba_redes.Router.Forwarding.{handle_outgoing, handle_incoming}
use fiuba_redes.Router.Steps.{with_nat, HasPorts, answer_of}
use fiuba_redes.Router.Sessions.{IsUnused, handle_incoming-handle_outgoing, handle_incoming_unused}
use fiuba_redes.Translation
use fiuba_redes.Translation.{Entry, Key, key_eq, reap, expired, drop_entries, is_expired}
use fiuba_redes.Translation.Pools.{least-range}
use fiuba_redes.Translation.Validity.{IsValid, init-IsValid, with_entry, reverse_entry}
use fiuba_redes.Translation.Sessions.{
  get_reverse_entry-create_entry, create_entry_new, create_entry-IsValid,
}

abbrev pub pox : Pox
pox = record {
  in_network = λ ip network mask. ip / 2 ^ (32 - mask) == network / 2 ^ (32 - mask);
  ofpp_flood = 65531;
  hw_type_ethernet = 1;
  ip_type = 2048;
}

abbrev host_ip : ℕ
host_ip = address 192 168 1 1

abbrev server_ip : ℕ
server_ip = address 200 0 0 1

abbrev home : ProtoRouter
home = record init {
  arp_handler = record Arp.init {
    arp_table =
        (host_ip, record { mac = 17; port = 2; timestamp = 0 })
        ∷ (server_ip, record { mac = 18; port = 1; timestamp = 0 })
        ∷ [];
  };
}

abbrev question : IpEvent
question = record {
  src = 17;
  dst = 19;
  ip_pkt = record {
    srcip = host_ip;
    dstip = server_ip;
    protocol = 6;
    csum = some 1;
    next = tcp_segment 5000 80 (some 2) [];
  };
  port = 2;
}

abbrev reply_packet : ℕ → IpEvent
reply_packet port = record {
  src = 18;
  dst = 20;
  ip_pkt = record {
    srcip = server_ip;
    dstip = public_ip;
    protocol = 6;
    csum = some 1;
    next = tcp_segment 80 port (some 2) [];
  };
  port = 1;
}

abbrev entry : Entry
entry = record { public_ip = public_ip; public_number = 1024; timestamp = 1 }

abbrev host_key : Key Protocol
host_key = nat_key tcp host_ip 5000

made_entry :
    create_pat_entry 0 1 tcp host_ip 5000 public_ip home.nat_handler
    ≡ (some entry, with_entry host_key entry home.nat_handler)
unfolding create_pat_entry reap expired drop_entries Translation.init Dict.lookup
made_entry =
    create_entry_new 0 1 host_key public_ip home.nat_handler 1024 refl (least-range 1024 64511)

ports : HasPorts tcp
ports same = absurd (ground arith)

known_server : get_mac server_ip home.arp_handler ≡ some 18
unfolding get_mac Dict.lookup ℕ_discrete
known_server = refl

known_host :
    both (get_mac host_ip home.arp_handler) (get_port host_ip home.arp_handler) ≡ some (17, 2)
unfolding get_mac get_port Dict.lookup ℕ_discrete
known_host = refl

handle_incoming-handle_outgoing_example :
    (handle_incoming pox 20000 20001
      (reply_packet 1024)
      tcp
      80
      1024
      (handle_outgoing pox 0 1 question tcp 5000 80 home)).connection
    ≡ (handle_outgoing pox 0 1 question tcp 5000 80 home).connection
      ++ answer_of (reply_packet 1024) 80 1024 (reverse_entry host_key entry) 17 2
handle_incoming-handle_outgoing_example =
    handle_incoming-handle_outgoing pox 0 1 20000 20001 question (reply_packet 1024) tcp 5000 80 80
      18 17 2 home entry ports init-IsValid known_server known_host
      (ap (λ (r : Option Entry × NatHandler). r.0) made_entry) refl (omega arith) refl

-- The session is open, and a packet for another port arrives.
abbrev busy : ProtoRouter
busy = record home { nat_handler = with_entry host_key entry home.nat_handler }

busy-IsValid : IsValid busy.nat_handler
unfolding create_pat_entry
busy-IsValid =
    rw (← ap (λ (r : Option Entry × NatHandler). r.1) made_entry)
      (create_entry-IsValid 0 1 host_key public_ip home.nat_handler init-IsValid)

clash : {x : Entry} → none ≡ some x → ⊥
clash e = ground arith

busy-IsUnused : IsUnused 20000 tcp 2000 busy.nat_handler
unfolding Translation.init
busy-IsUnused k x there same_tag same_ip port =
    elim (lookup-insert_inv k host_key entry x [] there) [
      | inl (_, same) ↦ absurd (omega (arith, ap (λ (y : Entry). y.public_number) same, port))
      | inr (_, found) ↦ absurd (clash (sym (lookup-nil k) ∙ found))
    ]

handle_incoming_unused_example :
    let s = handle_incoming pox 20000 20001 (reply_packet 2000) tcp 80 2000 busy in
    (s.connection ≡ busy.connection) × (s.arp_handler ≡ busy.arp_handler)
handle_incoming_unused_example =
    handle_incoming_unused pox 20000 20001 (reply_packet 2000) tcp 80 2000 busy ports busy-IsValid
      busy-IsUnused

handle_outgoing-Agrees_example :
    (sent : List Message) × Agrees question sent
    × ((handle_outgoing pox 0 1 question tcp 5000 80 home).connection ≡ [] ++ sent)
handle_outgoing-Agrees_example =
    handle_outgoing-Agrees pox 0 1 question tcp 5000 80 18 home entry ports refl known_server
      (ap (λ (r : Option Entry × NatHandler). r.0) made_entry)

abbrev in_session : ProtoRouter
in_session = with_nat (create_pat_entry 0 1 tcp host_ip 5000 public_ip home.nat_handler).1 home

found_session :
    (get_reverse_pat_entry 20000 tcp public_ip 1024 in_session.nat_handler).0
    ≡ some (reverse_entry host_key entry)
unfolding get_reverse_pat_entry create_pat_entry
found_session =
    get_reverse_entry-create_entry 0 1 20000 host_key public_ip home.nat_handler entry init-IsValid
      (ap (λ (r : Option Entry × NatHandler). r.0) made_entry) (omega arith)

handle_incoming-Agrees_example :
    (sent : List Message) × Agrees (reply_packet 1024) sent
    × ((handle_incoming pox 20000 20001 (reply_packet 1024) tcp 80 1024 in_session).connection
        ≡ [] ++ sent)
handle_incoming-Agrees_example =
    handle_incoming-Agrees pox 20000 20001 (reply_packet 1024) tcp 80 1024 17 2 in_session
      (reverse_entry host_key entry) ports refl refl found_session known_host

-- A router that knows nobody, and the server's announcement.
abbrev announcement : ArpPacket
announcement = record {
  hwtype = 1;
  prototype = 2048;
  hwlen = 6;
  protolen = 4;
  opcode = reply;
  hwsrc = 18;
  protosrc = server_ip;
  hwdst = public_mac;
  protodst = public_ip;
}

unknown_server : get_mac server_ip init.arp_handler ≡ none
unfolding get_mac Dict.lookup
unknown_server = refl

learn-handle_outgoing_example :
    let s' = handle_outgoing pox 0 1 question tcp 5000 80 init in
    let (events, s'') = learn pox 20 21 announcement 1 s' in
    (s'.connection ≡ [] ++ (create_arp_request pox server_ip public_port public_ip public_mac ∷ []))
    × (events
        ≡ ok (queue_of (Dict.lookup server_ip init.arp_handler.waiting_queue) ++ (question ∷ [])))
    × (get_mac server_ip s''.arp_handler ≡ some 18)
learn-handle_outgoing_example =
    learn-handle_outgoing pox 0 1 20 21 question tcp 5000 80 1 announcement init unknown_server refl
