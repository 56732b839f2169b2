-- ===== src/Nat.antt =====
-- tp2/src/handlers/nat_handler.py, class NatHandler: port translation for TCP and UDP sessions, as
-- a translation whose keys are tagged with the protocol.
use fiuba_redes.Common.{ℕ, Option, Eq}
use fiuba_redes.Translation.{Translation, Key, Entry, ReverseEntry, create_entry, get_reverse_entry}

-- The protocol names that `_get_transport_fields` gives.
pub data Protocol : Type 0 where
  tcp udp icmp : Protocol

Protocol-discrete : Discrete Protocol
Protocol-discrete = hlevel

instance unfoldable pub protocol_eq : Eq Protocol
unfolding Protocol-discrete
protocol_eq = record { dec = Protocol-discrete }

abbrev pub NatHandler : Type 0
NatHandler = Translation Protocol

abbrev pub nat_key : Protocol → ℕ → ℕ → Key Protocol
nat_key protocol ip port = record { tag = protocol; ip = ip; number = port }

unfoldable pub create_pat_entry :
    ℕ → ℕ → Protocol → ℕ → ℕ → ℕ → NatHandler → Option Entry × NatHandler
create_pat_entry now stamp protocol private_ip private_port public_ip =
    create_entry now stamp (nat_key protocol private_ip private_port) public_ip

unfoldable pub get_reverse_pat_entry :
    ℕ → Protocol → ℕ → ℕ → NatHandler → Option ReverseEntry × NatHandler
get_reverse_pat_entry now protocol public_ip public_port =
    get_reverse_entry now (nat_key protocol public_ip public_port)
