-- ===== src/Topology.antt =====
-- tp2/src/topo.py: the network on which the router runs, as the calls that class NATTopo makes of
-- Mininet's Topo, and the test of the number of its hosts. What Mininet makes of the calls, and the
-- commands that turn IPv6 off, are outside.
pub mod Addresses
use fiuba_redes.Common.{
  ℕ, zero, suc, ◌+◌, ◌-◌, ◌&&◌, leb, Option, none, some, List, [], ◌∷◌, if◌then◌else◌,
}
use fiuba_redes.Router.Sending.{address}
use fiuba_redes.Runtime.{ℤ, pos, negsuc}

abbrev pub min_private_host : ℕ
min_private_host = 2

abbrev pub max_private_host : ℕ
max_private_host = 253

abbrev pub available_hosts : ℕ
available_hosts = max_private_host - min_private_host + 1

-- The name "h" with its number, the address with its prefix, and the default route. The MAC address
-- ends in two hexadecimal digits, so it is the number below 256 that they write.
pub record Host : Type 0 where
  pub number : ℕ
  pub ip : ℕ
  pub prefix : ℕ
  pub mac : ℕ
  pub route : ℕ

-- `add_link` joins a host to the switch.
pub data Call : Type 0 where
  add_switch : Call
  add_host : Host → Call
  add_link : ℕ → Call

abbrev pub server : Host
server = record {
  number = 1;
  ip = address 200 0 0 1;
  prefix = 24;
  mac = 1;
  route = address 200 0 0 254;
}

abbrev pub private_host : ℕ → Host
private_host i = record {
  number = i;
  ip = address 192 168 1 i;
  prefix = 24;
  mac = i;
  route = address 192 168 1 254;
}

-- The loop over `range(MIN, MIN + n_hosts)`, from i on.
unfoldable pub private_calls : ℕ → ℕ → List Call
private_calls zero i = []
private_calls (suc n) i = add_host (private_host i) ∷ add_link i ∷ private_calls n (i + 1)

-- `NATTopo.build`
unfoldable pub build : ℕ → List Call
build n_hosts = add_switch ∷ add_host server ∷ add_link 1 ∷ private_calls n_hosts min_private_host

-- `get_private_hosts_count`, after argparse has read the number; `none` is its exit.
unfoldable pub private_hosts_count : ℤ → Option ℕ
private_hosts_count (pos n) = if leb 1 n && leb n available_hosts then some n else none
private_hosts_count (negsuc n) = none
