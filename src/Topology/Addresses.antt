-- ===== src/Topology/Addresses.antt =====
-- The addresses of the topology beside those that the router is built for.
use fiuba_redes.Common.{
  ℕ, zero, suc, ◌+◌, ◌-◌, ◌^◌, ◌≤◌, ◌<◌, ◌≡◌, ◌≢◌, refl, ap, arith, some, List, [], ◌∷◌, length,
  All, nat_eq,
}
use fiuba_redes.Router.Sending.{
  private_subnet, private_mask, private_ip, public_ip, public_mac, private_mac,
}
use fiuba_redes.Runtime.{ℤ, pos, negsuc}
use fiuba_redes.Topology.{
  Host, Call, add_switch, add_host, add_link, server, private_host, private_calls, build,
  private_hosts_count, available_hosts, min_private_host,
}

unfoldable pub hosts_of : List Call → List Host
hosts_of [] = []
hosts_of (add_switch ∷ calls) = hosts_of calls
hosts_of (add_host host ∷ calls) = host ∷ hosts_of calls
hosts_of (add_link i ∷ calls) = hosts_of calls

unfoldable pub links_of : List Call → List ℕ
links_of [] = []
links_of (add_switch ∷ calls) = links_of calls
links_of (add_host host ∷ calls) = links_of calls
links_of (add_link i ∷ calls) = i ∷ links_of calls

-- A host inside: its address is in the private network and not the router's, its route goes to the
-- router's inner address, and its MAC address is neither of the router's.
abbrev pub IsInside : Host → Type 0
IsInside host =
    (private_subnet < host.ip)
    × (host.ip < private_subnet + 2 ^ (32 - private_mask))
    × (host.ip ≢ private_ip)
    × (host.route ≡ private_ip)
    × (host.mac < 256)
    × (host.mac ≢ public_mac)
    × (host.mac ≢ private_mac)

-- The numbers, addresses and MAC addresses of all later hosts are others.
abbrev pub Apart : List Host → Type 0
Apart [] = Unit
Apart (host ∷ hosts) =
    All
      (λ (other : Host).
        (other.number ≢ host.number) × (other.ip ≢ host.ip) × (other.mac ≢ host.mac))
      hosts
    × Apart hosts

-- Every host has its link to the switch, in the same order.
abbrev pub Linked : List Host → List ℕ → Type 0
Linked [] [] = Unit
Linked [] (i ∷ is) = ⊥
Linked (host ∷ hosts) [] = ⊥
Linked (host ∷ hosts) (i ∷ is) = (host.number ≡ i) × Linked hosts is

from_private_host :
    (P : Host → Type 0) (n i : ℕ)
    → ((j : ℕ) → i ≤ j → j < i + n → P (private_host j))
    → All P (hosts_of (private_calls n i))
unfolding hosts_of private_calls
from_private_host P zero i f = tt
from_private_host P (suc n) i f = (
  f i (omega arith) (omega arith),
  from_private_host P n (i + 1) λ j h g. f j (omega arith) (omega arith),
)

private_calls-Apart : (n i : ℕ) → Apart (hosts_of (private_calls n i))
unfolding hosts_of private_calls
private_calls-Apart zero i = tt
private_calls-Apart (suc n) i = (
  from_private_host _ n (i + 1)
      (λ j h g. (λ e. absurd (omega arith), λ e. absurd (omega arith), λ e. absurd (omega arith))),
  private_calls-Apart n (i + 1),
)

private_calls-Linked :
    (n i : ℕ) → Linked (hosts_of (private_calls n i)) (links_of (private_calls n i))
unfolding hosts_of links_of private_calls
private_calls-Linked zero i = tt
private_calls-Linked (suc n) i = (refl, private_calls-Linked n (i + 1))

length-private_calls : (n i : ℕ) → length (hosts_of (private_calls n i)) ≡ n
unfolding hosts_of private_calls
length-private_calls zero i = refl
length-private_calls (suc n) i = ap suc (length-private_calls n (i + 1))

private_hosts_count-le :
    (z : ℤ) (n : ℕ) → private_hosts_count z ≡ some n → (1 ≤ n) × (n ≤ available_hosts)
unfolding private_hosts_count
private_hosts_count-le (pos m) n e = ground arith
private_hosts_count-le (negsuc m) n e = absurd (ground arith)

-- For every number of hosts that the program accepts, the first host is the public server, which
-- is outside the private network and routes to the router's outer address; there are that many
-- further hosts, each inside the private network with an address and a MAC address that are not the
-- router's, routing to its inner address; no two hosts share a number, an address or a MAC
-- address; and every host has one link to the switch, in the order of the hosts.
pub build-Apart :
    (z : ℤ) (n : ℕ)
    → private_hosts_count z ≡ some n
    → (inside : List Host) × (hosts_of (build n) ≡ server ∷ inside)
      × (private_subnet + 2 ^ (32 - private_mask) ≤ server.ip)
      × (server.route ≡ public_ip)
      × (length inside ≡ n)
      × All IsInside inside
      × Apart (server ∷ inside)
      × Linked (server ∷ inside) (links_of (build n))
unfolding build hosts_of links_of
build-Apart z n e =
    let (low, high) = private_hosts_count-le z n e in
    (
      hosts_of (private_calls n min_private_host),
      refl,
      omega arith,
      refl,
      length-private_calls n min_private_host,
      from_private_host IsInside n min_private_host (λ j h g. (
        omega arith,
        omega arith,
        λ e. absurd (omega arith),
        refl,
        omega arith,
        λ e. absurd (omega arith),
        λ e. absurd (omega arith),
      )),
      (
        from_private_host _ n min_private_host (λ j h g.
            (λ e. absurd (omega arith), λ e. absurd (omega arith), λ e. absurd (omega arith))),
        private_calls-Apart n min_private_host,
      ),
      (refl, private_calls-Linked n min_private_host),
    )
