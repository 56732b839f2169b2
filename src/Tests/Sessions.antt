-- ===== src/Tests/Sessions.antt =====
-- NAT sessions at concrete inputs: a translation with two free ports.
use fiuba_redes.Common.{◌≡◌, ◌≢◌, ◌↔◌, refl, ◌∙◌, arith, false, Option, none, some, ℕ_discrete, ap}
use fiuba_redes.Common.Dict
use fiuba_redes.Nat.{NatHandler, Protocol, tcp, udp, protocol_eq, nat_key}
use fiuba_redes.Translation.{
  Entry, Key, key_eq, init, is_expired, create_entry, get_reverse_entry, reap, expired,
  drop_entries, least,
}
use fiuba_redes.Translation.Pools.{least-range, remove-range}
use fiuba_redes.Translation.Validity.{IsValid, init-IsValid, with_entry}
use fiuba_redes.Translation.Reaping.{live, lookup-reap}
use fiuba_redes.Translation.Sessions.{
  create_entry-IsValid, get_reverse_entry-create_entry, get_reverse_entry-some_iff,
  create_entry-none_iff, IsFull, create_entry_distinct, create_entry_new,
}

abbrev start : NatHandler
start = init

abbrev host : Key Protocol
host = nat_key tcp 2 5000

abbrev other : Key Protocol
other = nat_key udp 3 5000

abbrev first : Entry
first = record { public_ip = 9; public_number = 1024; timestamp = 1 }

-- Nothing has expired in an empty table, so the least number of the range is taken.
first_entry : create_entry 0 1 host 9 start ≡ (some first, with_entry host first start)
unfolding reap expired drop_entries init Dict.lookup
first_entry = create_entry_new 0 1 host 9 start 1024 refl (least-range 1024 64511)

first_session : (create_entry 0 1 host 9 start).0 ≡ some first
first_session = ap (λ (r : Option Entry × NatHandler). r.0) first_entry

abbrev opened : NatHandler
opened = (create_entry 0 1 host 9 start).1

create_entry-IsValid_example : IsValid opened
create_entry-IsValid_example = create_entry-IsValid 0 1 host 9 start init-IsValid

get_reverse_entry-create_entry_example :
    (get_reverse_entry 20000 (nat_key tcp 9 1024) opened).0
    ≡ some (record { private_ip = 2; private_number = 5000; timestamp = 1 })
get_reverse_entry-create_entry_example =
    get_reverse_entry-create_entry 0 1 20000 host 9 start first init-IsValid first_session
      (omega arith)

get_reverse_entry-some_iff_example :
    ((get_reverse_entry 20000 (nat_key tcp 9 1024) opened).0
      ≡ some (record { private_ip = 2; private_number = 5000; timestamp = 1 }))
    ↔ ((Dict.lookup host opened.table ≡ some first) × (is_expired 20000 first ≡ false))
get_reverse_entry-some_iff_example =
    get_reverse_entry-some_iff 20000 (nat_key tcp 9 1024)
      (record { private_ip = 2; private_number = 5000; timestamp = 1 }) opened
      create_entry-IsValid_example

create_entry-none_iff_example :
    ((create_entry 20000 20001 other 9 opened).0 ≡ none)
    ↔ ((live 20000 (Dict.lookup other opened.table) ≡ none) × IsFull 20000 opened)
create_entry-none_iff_example =
    create_entry-none_iff 20000 20001 other 9 opened create_entry-IsValid_example

lookup-reap_example :
    Dict.lookup host (reap 40000 opened).table ≡ live 40000 (Dict.lookup host opened.table)
lookup-reap_example = lookup-reap 40000 host opened create_entry-IsValid_example

abbrev second : Entry
second = record { public_ip = 9; public_number = 1025; timestamp = 21000 }

abbrev after_first : NatHandler
after_first = with_entry host first start

opened_lem : opened ≡ after_first
opened_lem = ap (λ (r : Option Entry × NatHandler). r.1) first_entry

-- The second host uses the same private port and gets the next number.
second_session : (create_entry 20000 21000 other 9 opened).0 ≡ some second
unfolding reap expired drop_entries init Dict.lookup Dict.insert key_eq protocol_eq ℕ_discrete
second_session = rw opened_lem (
    ap (λ (r : Option Entry × NatHandler). r.0)
      (create_entry_new 20000 21000 other 9 after_first 1025 refl
        (ap least (remove-range 1024 64511) ∙ least-range 1025 64510)))

host-ne-other : host ≢ other
host-ne-other same = absurd (omega (arith, ap (λ (k : Key Protocol). k.ip) same))

create_entry_distinct_example : first.public_number ≢ second.public_number
create_entry_distinct_example =
    create_entry_distinct 0 1 20000 21000 host other 9 9 start first second init-IsValid
      host-ne-other first_session second_session (omega arith)
