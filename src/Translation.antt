-- ===== src/Translation.antt =====
-- tp2/src/handlers/nat_handler.py and icmp_handler.py: address translation with timed entries. Both
-- handlers keep a table from private to public addresses, its reverse and a pool of free public
-- numbers, and run the same code over them; a NAT key also holds the protocol. Here a key has a
-- tag: the protocol for NAT, nothing for ICMP. `time.time()` is an argument, in milliseconds; a
-- method that reads the clock twice takes two readings.
pub mod Pools
pub mod Validity
pub mod Reaping
pub mod Sessions
use fiuba_redes.Common.{
  ℕ, zero, suc, ◌+◌, ◌-◌, ◌*◌, Bool, true, false, not, ◌&&◌, Option, none, some, List, [], ◌∷◌, ltb,
  leb, Eq, ◌==◌, nat_eq, if◌then◌else◌, ℕ_discrete,
}
use fiuba_redes.Common.Dict
use fiuba_redes.Common.Dict.{Dict}

-- (protocol, ip, port) or (ip, id)
pub record Key {ℓ} (T : Type ℓ) : Type ℓ where
  pub tag : T
  pub ip : ℕ
  pub number : ℕ

module _ {ℓ} {T : Type ℓ} ⦃e : Eq T⦄ where
  Key-discrete : Discrete (Key T)
  Key-discrete = hlevel (e.dec, ℕ_discrete)

  instance unfoldable pub key_eq : Eq (Key T)
  unfolding Key-discrete
  key_eq = record { dec = Key-discrete }

-- nat_table and icmp_table: where a private address stands for.
pub record Entry : Type 0 where
  pub public_ip : ℕ
  pub public_number : ℕ
  pub timestamp : ℕ

-- reverse_nat and reverse_icmp
pub record ReverseEntry : Type 0 where
  pub private_ip : ℕ
  pub private_number : ℕ
  pub timestamp : ℕ

-- A Python set of numbers.
abbrev pub Pool : Type 0
Pool = List ℕ

unfoldable pub in_pool : ℕ → Pool → Bool
in_pool n [] = false
in_pool n (m ∷ ms) = if n == m then true else in_pool n ms

-- `min(pool)`
unfoldable pub least : Pool → Option ℕ
least [] = none
least (n ∷ ns) = elim (least ns) [ none ↦ some n | some m ↦ some (if ltb n m then n else m) ]

-- `pool.remove(n)` and `pool.add(n)`
unfoldable pub remove : ℕ → Pool → Pool
remove n [] = []
remove n (m ∷ ms) = let rest = remove n ms in if n == m then rest else m ∷ rest

unfoldable pub add : ℕ → Pool → Pool
add n pool = if in_pool n pool then pool else n ∷ pool

-- `set(range(low, high + 1))`; `high + 1 - low` is the count.
unfoldable pub range : ℕ → ℕ → List ℕ
range low zero = []
range low (suc count) = low ∷ range (low + 1) count

pub record Translation {ℓ} (T : Type ℓ) : Type ℓ where
  pub table : Dict (Key T) Entry
  pub reverse : Dict (Key T) ReverseEntry
  pub pool : Pool

abbrev pub entry_timeout : ℕ
entry_timeout = 30 * 1000

-- PAT_PORT_MIN, PAT_PORT_MAX, ICMP_ID_MIN, ICMP_ID_MAX
abbrev pub number_min : ℕ
number_min = 1024

abbrev pub number_max : ℕ
number_max = 65535

-- `now - data["timestamp"] > ENTRY_TIMEOUT`
abbrev pub is_expired : ℕ → Entry → Bool
is_expired now entry = ltb entry_timeout (now - entry.timestamp)

module _ {ℓ} {T : Type ℓ} ⦃e : Eq T⦄ where
  unfoldable pub init : Translation T
  init = record { table = []; reverse = []; pool = range number_min (number_max + 1 - number_min) }

  -- allocate_public_port, allocate_icmp_id
  unfoldable pub allocate : Translation T → Option ℕ × Translation T
  allocate t = elim (least t.pool) [
    | none ↦ (none, t)
    | some n ↦ (some n, record t { pool = remove n t.pool })
  ]

  -- release_public_port, release_icmp_id
  unfoldable pub release : ℕ → Translation T → Translation T
  release n t = if leb number_min n && leb n number_max then record t { pool = add n t.pool } else t

  -- The first loop of a reap: the keys of the expired entries.
  unfoldable pub expired : ℕ → Dict (Key T) Entry → List (Key T)
  expired now [] = []
  expired now ((k, data') ∷ items) =
      let rest = expired now items in if is_expired now data' then k ∷ rest else rest

  -- One turn of its second loop. The keys come from the table and are distinct, so `pop` finds
  -- each; the `del` is under the test of the source.
  unfoldable pub drop_entry : Key T → Translation T → Translation T
  unfolding release
  drop_entry k t = elim (Dict.lookup k t.table) [
    | none ↦ t
    | some data' ↦
        let reverse_key : Key T = record {
          tag = k.tag;
          ip = data'.public_ip;
          number = data'.public_number;
        } in
        release data'.public_number (record t {
          table = Dict.erase k t.table;
          reverse =
              if Dict.contains reverse_key t.reverse
              then Dict.erase reverse_key t.reverse
              else t.reverse;
        })
  ]

  unfoldable pub drop_entries : List (Key T) → Translation T → Translation T
  drop_entries [] t = t
  drop_entries (k ∷ ks) t = drop_entries ks (drop_entry k t)

  -- _reap_nat_table, _reap_icmp_table
  unfoldable pub reap : ℕ → Translation T → Translation T
  reap now t = drop_entries (expired now t.table) t

  -- The new entry and its reverse.
  unfoldable pub record_entry : Key T → ℕ → ℕ → ℕ → Translation T → Option Entry × Translation T
  record_entry k public_ip public_number stamp t =
      let entry : Entry = record {
        public_ip = public_ip;
        public_number = public_number;
        timestamp = stamp;
      } in
      (
        some entry,
        record t {
          table = Dict.insert k entry t.table;
          reverse =
              Dict.insert (record { tag = k.tag; ip = public_ip; number = public_number })
                (record { private_ip = k.ip; private_number = k.number; timestamp = stamp })
                t.reverse;
        },
      )

  unfoldable pub create_new :
      ℕ → Key T → ℕ → Option ℕ × Translation T → Option Entry × Translation T
  create_new stamp k public_ip (none, t) = (none, t)
  create_new stamp k public_ip (some n, t) = record_entry k public_ip n stamp t

  -- create_pat_entry, IcmpHandler.create_entry: `now` for the reap, `stamp` for the entry.
  unfoldable pub create_entry : ℕ → ℕ → Key T → ℕ → Translation T → Option Entry × Translation T
  unfolding create_new
  create_entry now stamp k public_ip t =
      let t' = reap now t in
      elim (Dict.lookup k t'.table) [
        | some entry ↦ (some entry, t')
        | none ↦ create_new stamp k public_ip (allocate t')
      ]

  -- NatHandler.get_reverse_entry, IcmpHandler.get_reverse_entry
  unfoldable pub get_reverse_entry : ℕ → Key T → Translation T → Option ReverseEntry × Translation T
  get_reverse_entry now reverse_key t =
      let t' = reap now t in (Dict.lookup reverse_key t'.reverse, t')
