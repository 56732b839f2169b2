-- ===== src/Factory/Opening.antt =====
-- The opening of a connection: what the client's protocol object sends, and what the server makes of
-- it.
use fiuba_redes.Common.{
  Bool-cases, inl, inr, ℕ_discrete, ℕ, ◌^◌, ◌<◌, ◌≡◌, ◌≢◌, refl, ap, arith, Option, some, length,
  All, ltb, nat_eq, if◌then◌else◌,
}
use fiuba_redes.Constants.{type_syn, max_file_size}
use fiuba_redes.Event.{Event, handshake}
use fiuba_redes.Exceptions.{Result, ok, raise, filesize_error}
use fiuba_redes.Factory.{
  AnyProtocol, Choice, stop_and_wait, selective_repeat, choose_stop_and_wait,
  choose_selective_repeat, numbered, named, create_protocol, protocol_factory_create,
}
use fiuba_redes.Factory.Methods.{syn, handle_handshake}
use fiuba_redes.Handshake.{syn_payload, read_syn-syn_payload}
use fiuba_redes.Packet.{Bytes, new, from_bytes}
use fiuba_redes.Packet.Header.{Fits}
use fiuba_redes.Packet.RoundTrip.{from_bytes-to_bytes}
use fiuba_redes.Runtime.{Text, Runtime, IsRuntime, pos}
use fiuba_redes.SelectiveRepeat.{SelectiveRepeat}
use fiuba_redes.SelectiveRepeat
use fiuba_redes.StopAndWait.{StopAndWait}
use fiuba_redes.StopAndWait
use mathlib.Core.Path.{subst}

-- The event of a file name and a size, or the refusal of a size above the limit.
abbrev pub opening : Text → ℕ → ℕ → Result (Option Event)
opening filename filesize op_type =
    if ltb max_file_size filesize
    then raise filesize_error
    else ok (some (handshake filename (pos filesize) op_type))

module _ (r : Runtime) (lib : IsRuntime r) (filename : Text) (filesize op_type : ℕ)
    (visible : All (λ c. c ≢ 0) filename) (raw : Bytes) where
  pub selective_handshake :
      from_bytes r.crc32 raw ≡ ok (new type_syn op_type 1 (syn_payload r filename filesize) 0)
      → SelectiveRepeat.handle_handshake r raw (SelectiveRepeat.init op_type)
        ≡ (opening filename filesize op_type, SelectiveRepeat.init op_type)
  unfolding SelectiveRepeat.handle_handshake SelectiveRepeat.handle_packet SelectiveRepeat.dispatch
      SelectiveRepeat.handle_syn ℕ_discrete
  selective_handshake read = elim (Bool-cases (ltb max_file_size filesize)) [
    | inl big ↦
        rw
          (
            read,
            SelectiveRepeat.handle_handshake,
            SelectiveRepeat.handle_packet,
            SelectiveRepeat.handle_syn,
            read_syn-syn_payload r lib filename filesize visible,
            big,
          )
          refl
    | inr fits ↦
        rw
          (
            read,
            SelectiveRepeat.handle_handshake,
            SelectiveRepeat.handle_packet,
            SelectiveRepeat.handle_syn,
            read_syn-syn_payload r lib filename filesize visible,
            fits,
          )
          refl
  ]

  stop_handshake :
      from_bytes r.crc32 raw ≡ ok (new type_syn op_type 0 (syn_payload r filename filesize) 0)
      → StopAndWait.handle_handshake r raw (StopAndWait.init op_type)
        ≡ (opening filename filesize op_type, StopAndWait.init op_type)
  unfolding StopAndWait.handle_handshake StopAndWait.handle_packet StopAndWait.dispatch
      StopAndWait.handle_syn ℕ_discrete
  stop_handshake read = elim (Bool-cases (ltb max_file_size filesize)) [
    | inl big ↦
        rw
          (
            read,
            StopAndWait.handle_handshake,
            StopAndWait.handle_packet,
            StopAndWait.handle_syn,
            read_syn-syn_payload r lib filename filesize visible,
            big,
          )
          refl
    | inr fits ↦
        rw
          (
            read,
            StopAndWait.handle_handshake,
            StopAndWait.handle_packet,
            StopAndWait.handle_syn,
            read_syn-syn_payload r lib filename filesize visible,
            fits,
          )
          refl
  ]

-- The client's first datagram, which the server answers with a protocol of the same kind and the
-- event of the client's request.
pub record Opens (r : Runtime) (filename : Text) (filesize op_type : ℕ) (p : AnyProtocol)
    : Type 0 where
  pub raw : Bytes
  pub sent : syn r p filename filesize ≡ ok raw
  pub chosen : protocol_factory_create r raw ≡ ok p
  pub shaken : handle_handshake r raw p ≡ (opening filename filesize op_type, p)

syn-Fits :
    (op_type protocol : ℕ) (payload : Bytes)
    → op_type < 2
    → protocol < 2
    → length payload < 2 ^ 27
    → Fits (new type_syn op_type protocol payload 0)
syn-Fits op_type protocol payload o p small = record {
  pkt_type = omega arith;
  op_type = o;
  protocol = p;
  data_length = small;
  seq_num = omega arith;
  measured = refl;
}

module _ (r : Runtime) (lib : IsRuntime r) (filename : Text) (filesize op_type : ℕ)
    (visible : All (λ c. c ≢ 0) filename) (valid : op_type < 2)
    (small : length (syn_payload r filename filesize) < 2 ^ 27) where
  selective-Opens :
      Opens r filename filesize op_type (selective_repeat (SelectiveRepeat.init op_type))
  unfolding protocol_factory_create SelectiveRepeat.syn ℕ_discrete
  selective-Opens =
      let (raw, sent, read) =
        from_bytes-to_bytes r.crc32 lib.crc32-lt
          (new type_syn op_type 1 (syn_payload r filename filesize) 0)
          (syn-Fits op_type 1 (syn_payload r filename filesize) valid (omega arith) small) in
      record {
        raw = raw;
        sent = sent;
        chosen = rw read refl;
        shaken =
            ap (λ (x : Result (Option Event) × SelectiveRepeat). (x.0, selective_repeat x.1))
              (selective_handshake r lib filename filesize op_type visible raw read);
      }

  stop-Opens : Opens r filename filesize op_type (stop_and_wait (StopAndWait.init op_type))
  unfolding protocol_factory_create StopAndWait.syn ℕ_discrete
  stop-Opens =
      let (raw, sent, read) =
        from_bytes-to_bytes r.crc32 lib.crc32-lt
          (new type_syn op_type 0 (syn_payload r filename filesize) 0)
          (syn-Fits op_type 0 (syn_payload r filename filesize) valid (omega arith) small) in
      record {
        raw = raw;
        sent = sent;
        chosen = rw read refl;
        shaken =
            ap (λ (x : Result (Option Event) × StopAndWait). (x.0, stop_and_wait x.1))
              (stop_handshake r lib filename filesize op_type visible raw read);
      }

abbrev created : Result AnyProtocol → AnyProtocol
created (ok p) = p
created (raise e) = stop_and_wait (StopAndWait.init 0)

-- A connection opens: with the protocol object p of a client, whichever the command line chose, the
-- SYN for a file name without zeros is sent without an exception, the server makes of its bytes the
-- same protocol object, and its handshake gives the name, size and operation that were sent, or
-- refuses exactly the sizes above the limit.
pub create_protocol-Opens :
    (r : Runtime) (choice : Choice) (filename : Text) (filesize op_type : ℕ) (p : AnyProtocol)
    → IsRuntime r
    → All (λ c. c ≢ 0) filename
    → op_type < 2
    → length (syn_payload r filename filesize) < 2 ^ 27
    → create_protocol choice op_type ≡ ok p
    → Opens r filename filesize op_type p
unfolding create_protocol
create_protocol-Opens r choose_stop_and_wait filename filesize op_type p lib visible valid small e =
    subst (λ q. Opens r filename filesize op_type q) (ap created e)
      (stop-Opens r lib filename filesize op_type visible valid small)
create_protocol-Opens r choose_selective_repeat filename filesize op_type p lib visible valid small
      e =
    subst (λ q. Opens r filename filesize op_type q) (ap created e)
      (selective-Opens r lib filename filesize op_type visible valid small)
create_protocol-Opens r (numbered n) filename filesize op_type p lib visible valid small e =
    absurd (ground arith)
create_protocol-Opens r (named name) filename filesize op_type p lib visible valid small e =
    absurd (ground arith)
