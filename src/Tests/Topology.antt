-- ===== src/Tests/Topology.antt =====
-- The topology with three private hosts.
use fiuba_redes.Common.{◌≡◌, ◌+◌, ◌-◌, ◌^◌, ◌≤◌, refl, some, List, ◌∷◌, length, All}
use fiuba_redes.Router.Sending.{private_subnet, private_mask, public_ip}
use fiuba_redes.Runtime.{pos}
use fiuba_redes.Topology.{Host, server, build, private_hosts_count}
use fiuba_redes.Topology.Addresses.{hosts_of, links_of, IsInside, Apart, Linked, build-Apart}

three : private_hosts_count (pos 3) ≡ some 3
unfolding private_hosts_count
three = refl

build-Apart_example :
    (inside : List Host) × (hosts_of (build 3) ≡ server ∷ inside)
    × (private_subnet + 2 ^ (32 - private_mask) ≤ server.ip)
    × (server.route ≡ public_ip)
    × (length inside ≡ 3)
    × All IsInside inside
    × Apart (server ∷ inside)
    × Linked (server ∷ inside) (links_of (build 3))
build-Apart_example = build-Apart (pos 3) 3 three
