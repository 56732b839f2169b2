-- ===== src/Upload/Start.antt =====
-- The start of an upload: the client has opened its file and sent the SYN, the server has answered.
use fiuba_redes.Common.{
  ℕ, ◌^◌, ◌<◌, ◌≡◌, inl, inr, refl, arith, some, true, [], length, flatten, nat_eq, ◌≢◌, All, ◌∷◌,
}
use fiuba_redes.Common.Dict
use fiuba_redes.Common.Dict.{Dict, lookup-nil, lookup-insert_self}
use fiuba_redes.Constants.{op_type_upload, type_syn}
use fiuba_redes.Exceptions.{ok}
use fiuba_redes.File.{
  text_eq, open_for_read, open_for_write, create_file, is_closed, FileHandler, size,
}
use fiuba_redes.Packet.{Bytes, new, Packet}
use fiuba_redes.Packet.Header.{Fits}
use fiuba_redes.Packet.RoundTrip.{wire, to_bytes-wire}
use fiuba_redes.Runtime.{Text, Runtime, IsRuntime, pos}
use fiuba_redes.SelectiveRepeat.{Entry, syn_ack_to_bytes}
use fiuba_redes.SelectiveRepeat.Transfer.{init-Receiving}
use fiuba_redes.Upload.{start, init}
use fiuba_redes.Upload.Chunks.{chunks}
use fiuba_redes.Upload.Sending.{Sends}
use fiuba_redes.Client
use fiuba_redes.Upload.Uploading.{at}
use fiuba_redes.File
use fiuba_redes.Endpoint.{send}
use fiuba_redes.Handshake.{syn_payload, read_syn-syn_payload}
use fiuba_redes.SelectiveRepeat
use fiuba_redes.Upload.Requests.{syn_ack_packet, syn_ack_packet-Fits}
use fiuba_redes.Upload.Steps.{IsRight}

init-Sends : (content : Bytes) (A : ℕ → Type 0) → Sends content A init
init-Sends content A = record {
  right = record {
    ordered = omega arith;
    positive = omega arith;
    unacknowledged = λ k entry e. absurd (ground (arith, lookup-nil {V = Entry} k));
  };
  op_type = omega arith;
  protocol = omega arith;
  chunk_size = refl;
  sized = omega arith;
  items = tt;
  acked = λ k low high out. absurd (omega arith);
}

abbrev pub syn_packet : Runtime → Text → ℕ → Packet
syn_packet r name filesize = new type_syn 1 1 (syn_payload r name filesize) 0

pub syn_packet-Fits :
    (r : Runtime) (name : Text) (filesize : ℕ)
    → length (syn_payload r name filesize) < 2 ^ 27
    → Fits (syn_packet r name filesize)
syn_packet-Fits r name filesize short = record {
  pkt_type = omega arith;
  op_type = omega arith;
  protocol = omega arith;
  data_length = short;
  seq_num = omega arith;
  measured = refl;
}

-- The client's file once it is open.
abbrev pub opened : (Text → Text) → Text → FileHandler → FileHandler
opened join path h = record h {
  path = some (join path);
  file = some (record { at = join path; is_reading = true; position = 0 });
}

open_for_read_lem :
    (join : Text → Text) (path : Text) (content : Bytes) (h : FileHandler)
    → Dict.lookup (join path) h.disk ≡ some content
    → open_for_read join (some path) h ≡ (ok tt, opened join path h)
unfolding open_for_read
open_for_read_lem join path content h there = rw there refl

size-opened :
    (join : Text → Text) (path : Text) (content : Bytes) (h : FileHandler)
    → Dict.lookup (join path) h.disk ≡ some content
    → size (opened join path h) ≡ ok (length content)
unfolding size
size-opened join path content h there = rw (there, size) refl

-- The client up to its SYN.
pub connect_upload_lem :
    (r : Runtime) (join : Text → Text) (path name : Text) (content : Bytes) (disk : Dict Text Bytes)
    → IsRuntime r
    → Dict.lookup (join path) disk ≡ some content
    → length (syn_payload r name (length content)) < 2 ^ 27
    → Client.connect_upload r join path name (at init (File.init disk) []) ≡ (
      ok tt,
      at init
          (opened join path (File.init disk))
          (wire r.crc32 (syn_packet r name (length content)) ∷ []),
    )
unfolding Client.connect_upload Client.open_connection SelectiveRepeat.syn send
connect_upload_lem r join path name content disk lib there short = rw (
  open_for_read_lem join path content (File.init disk) there,
  size-opened join path content (File.init disk) there,
  to_bytes-wire r.crc32 lib.crc32-lt (syn_packet r name (length content))
      (syn_packet-Fits r name (length content) short),
)

module _ (r : Runtime) (lib : IsRuntime r) (join join' : Text → Text) (path name : Text)
    (content : Bytes) (disk disk' : Dict Text Bytes) (bounded : length content < 2 ^ 30)
    (there : Dict.lookup (join path) disk ≡ some content) (visible : All (λ c. c ≢ 0) name)
    (short : length (syn_payload r name (length content)) < 2 ^ 27) where
  -- The start.
  pub start-IsRight :
      IsRight r lib content
        (join path)
        (join' name)
        join
        join'
        bounded
        (start r join join' path disk name disk')
  unfolding open_for_write create_file syn_ack_to_bytes flatten
  start-IsRight =
      let request = syn_packet r name (length content) in
      let fits = syn_packet-Fits r name (length content) short in
      let answer_fits = syn_ack_packet-Fits init (omega arith) (omega arith) in
      rw
        (
          connect_upload_lem r join path name content disk lib there short,
          to_bytes-wire r.crc32 lib.crc32-lt (syn_ack_packet init) answer_fits,
        )
        (record {
          p = init;
          h = _;
          sent = wire r.crc32 request ∷ [];
          q = init;
          h' = _;
          sent' = _;
          same = refl;
          uploads = record {
            sends = init-Sends content _;
            phase = inl (record { short = omega arith });
            front = inl refl;
            datagrams = (
              (
                request,
                refl,
                inr (
                    inr (
                      refl,
                      fits,
                      (
                        name,
                        pos (length content),
                        read_syn-syn_payload r lib name (length content) visible,
                        ground arith,
                      ),
                    )),
              ),
              tt,
            );
            file =
                inl (0, record { opened = refl; stored = there }, inl (omega arith, omega arith));
          };
          stores = record {
            out = [];
            receiving = init-Receiving (chunks content) op_type_upload;
            op_type = omega arith;
            protocol = omega arith;
            sized = omega arith;
            idle = refl;
            file =
                inl (record { opened = refl; stored = lookup-insert_self (join' name) [] disk' });
            datagrams = ((syn_ack_packet init, refl, answer_fits, inl refl), tt);
            opens = (syn_ack_packet init, refl, refl, answer_fits);
          };
        })
