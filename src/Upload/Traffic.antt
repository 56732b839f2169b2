-- ===== src/Upload/Traffic.antt =====
-- The datagrams of an upload, in both directions.
use fiuba_redes.Common.{
  ℕ, ◌≤◌, ◌<◌, ◌≡◌, ◌⊎◌, inl, inr, refl, arith, List, [], ◌∷◌, map, nat_eq, All, false, some,
  get_elem?, ◌++◌,
}
use fiuba_redes.Constants.{type_ack, type_syn_ack, type_close_ack, type_syn, max_file_size}
use fiuba_redes.Exceptions.{ok}
use fiuba_redes.Handshake.{read_syn}
use fiuba_redes.Runtime.{Text, ℤ, exceeds, Runtime}
use fiuba_redes.Packet.{Packet, Bytes}
use fiuba_redes.Packet.Header.{Fits}
use fiuba_redes.Packet.RoundTrip.{wire}
use fiuba_redes.Upload.Chunks.{IsNumber}
use fiuba_redes.Upload.Sending.{IsGood, IsGood-grows}

-- What a client sends: packets of the file, the FIN, the ACK of the connection, and the SYN.
abbrev pub IsOpening : Packet → Type 0
IsOpening pkt = (pkt.pkt_type ≡ type_ack) × (pkt.seq_num ≡ 0) × Fits pkt

-- The SYN, which the server reads and does not refuse.
abbrev pub IsRequest : Runtime → Packet → Type 0
IsRequest r pkt =
    (pkt.pkt_type ≡ type_syn)
    × Fits pkt
    × ((name : Text) × (size : ℤ) × (read_syn r pkt.payload ≡ ok (name, size))
        × (exceeds size max_file_size ≡ false))

abbrev pub FromClient : Runtime → Bytes → (ℕ → Type 0) → ℕ → Bytes → Type 0
FromClient r content A n raw =
    (pkt : Packet) × (raw ≡ wire r.crc32 pkt)
    × (IsGood content A n pkt ⊎ (IsOpening pkt ⊎ IsRequest r pkt))

-- What a server sends: the SYN_ACK, the ACK of a chunk that it has, and the FIN_ACK. `D` says that it
-- has the file and closed it.
abbrev pub FromServer : Runtime → Bytes → (ℕ → Type 0) → Type 0 → ℕ → Bytes → Type 0
FromServer r content A D n raw =
    (pkt : Packet) × (raw ≡ wire r.crc32 pkt)
    × Fits pkt
    × ((pkt.pkt_type ≡ type_syn_ack)
        ⊎ (((pkt.pkt_type ≡ type_ack)
              × IsNumber content pkt.seq_num
              × (pkt.seq_num < n)
              × A pkt.seq_num)
            ⊎ ((pkt.pkt_type ≡ type_close_ack) × D)))

-- The first datagram is the SYN_ACK.
abbrev pub Opens : Runtime → List Bytes → Type 0
Opens r sent =
    (pkt : Packet) × (get_elem? sent 0 ≡ some (wire r.crc32 pkt))
    × (pkt.pkt_type ≡ type_syn_ack)
    × Fits pkt

pub Opens-append : (r : Runtime) (sent raws : List Bytes) → Opens r sent → Opens r (sent ++ raws)
Opens-append r [] raws (pkt, there, kind, fits) = absurd (ground arith)
Opens-append r (raw ∷ sent) raws opens = opens

pub FromClient-grows :
    (r : Runtime) (content : Bytes) (A B : ℕ → Type 0) (n m : ℕ)
    → ((k : ℕ) → A k → B k)
    → n ≤ m
    → (raw : Bytes) → FromClient r content A n raw
    → FromClient r content B m raw
FromClient-grows r content A B n m f h raw (pkt, e, inl good) =
    (pkt, e, inl (IsGood-grows content A B n m pkt f h good))
FromClient-grows r content A B n m f h raw (pkt, e, inr opening) = (pkt, e, inr opening)

pub FromServer-grows :
    (r : Runtime) (content : Bytes) (A B : ℕ → Type 0) (D E : Type 0) (n m : ℕ)
    → ((k : ℕ) → A k → B k)
    → (D → E)
    → n ≤ m
    → (raw : Bytes) → FromServer r content A D n raw
    → FromServer r content B E m raw
FromServer-grows r content A B D E n m f g h raw (pkt, e, fits, inl kind) = (pkt, e, fits, inl kind)
FromServer-grows r content A B D E n m f g h raw
      (pkt, e, fits, inr (inl (kind, number, below, has))) =
    (pkt, e, fits, inr (inl (kind, number, omega arith, f pkt.seq_num has)))
FromServer-grows r content A B D E n m f g h raw (pkt, e, fits, inr (inr (kind, d))) =
    (pkt, e, fits, inr (inr (kind, g d)))

pub All-wire :
    (r : Runtime) (content : Bytes) (A : ℕ → Type 0) (n : ℕ) (pkts : List Packet)
    → All (IsGood content A n) pkts
    → All (FromClient r content A n) (map (wire r.crc32) pkts)
All-wire r content A n [] _ = tt
All-wire r content A n (pkt ∷ pkts) (good, rest) =
    ((pkt, refl, inl good), All-wire r content A n pkts rest)
