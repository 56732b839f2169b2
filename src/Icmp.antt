-- ===== src/Icmp.antt =====
-- tp2/src/handlers/icmp_handler.py, class IcmpHandler: echo identifiers, as a translation whose
-- keys have an empty tag.
use fiuba_redes.Common.{ℕ, Option, Eq, refl}
use fiuba_redes.Translation.{Translation, Key, Entry, ReverseEntry, create_entry, get_reverse_entry}

instance abbrev pub unit_eq : Eq (Unit {0})
unit_eq = record { dec = λ _ _. yes refl }

abbrev pub IcmpHandler : Type 0
IcmpHandler = Translation (Unit {0})

abbrev pub icmp_key : ℕ → ℕ → Key (Unit {0})
icmp_key ip id = record { tag = tt; ip = ip; number = id }

unfoldable pub create_icmp_entry : ℕ → ℕ → ℕ → ℕ → ℕ → IcmpHandler → Option Entry × IcmpHandler
create_icmp_entry now stamp private_ip private_id public_ip =
    create_entry now stamp (icmp_key private_ip private_id) public_ip

unfoldable pub get_reverse_icmp_entry : ℕ → ℕ → ℕ → IcmpHandler → Option ReverseEntry × IcmpHandler
get_reverse_icmp_entry now public_ip public_id =
    get_reverse_entry now (icmp_key public_ip public_id)
