-- ===== src/Tests/Faults.antt =====
-- A server's thread in the middle of an upload and of a download, and a window with three packets.
use fiuba_redes.Common.{
  ◌≡◌, ◌≢◌, refl, arith, true, false, some, length, [], ◌∷◌, ℕ_discrete, nat_eq,
}
use fiuba_redes.Common.Dict
use fiuba_redes.Endpoint.{Endpoint}
use fiuba_redes.Event.{acked}
use fiuba_redes.Exceptions.{raise, os_error}
use fiuba_redes.Factory.{selective_repeat}
use fiuba_redes.File.{text_eq}
use fiuba_redes.Packet.{Packet, new}
use fiuba_redes.SelectiveRepeat.{SelectiveRepeat, init, offsets, push_payload, slide}
use fiuba_redes.SelectiveRepeat
use fiuba_redes.SelectiveRepeat.Flow.{IsWithin, push_payload-IsWithin}
use fiuba_redes.SelectiveRepeat.Pushing.{HasRoom, cuts}
use fiuba_redes.SelectiveRepeat.Timers.{late}
use fiuba_redes.Server.{handle_ack}
use fiuba_redes.Server.Faults.{handle_ack-raises}
use fiuba_redes.Tests.Packets.{runtime, runtime-IsRuntime}
use fiuba_redes.Tests.Selective.{sender, sender-IsSending, sender-AllFit}
use fiuba_redes.Tests.Server.{storage, reading}

-- Three bytes have been written to the file "a".
abbrev uploading : Endpoint
uploading = record {
  protocol = selective_repeat (init 1);
  file_handler = record {
    file = some (record { at = storage (97 ∷ []); is_reading = false; position = 3 });
    path = some (storage (97 ∷ []));
    filename = some (97 ∷ []);
    disk = (storage (97 ∷ []), 1 ∷ 2 ∷ 3 ∷ []) ∷ [];
  };
  sent = [];
}

abbrev opening : Packet
opening = new 2 1 1 [] 0

-- The third packet was acknowledged, and the others wait since the times 1000, 2000 and 4000.
abbrev downloading : Endpoint
downloading = record {
  protocol = selective_repeat sender;
  file_handler = record uploading.file_handler {
    file = some (record { at = storage (97 ∷ []); is_reading = true; position = 3 });
  };
  sent = [];
}

some_late : late 9000 sender.window ≢ []
unfolding late
some_late e = absurd (ground arith)

handle_ack-raises_example :
    (handle_ack runtime (record reading { now = 9000 }) 1 downloading).0 ≡ raise os_error
handle_ack-raises_example =
    handle_ack-raises runtime (record reading { now = 9000 }) 1 sender downloading runtime-IsRuntime
      sender-AllFit some_late refl

freed : (SelectiveRepeat.handle_ack (new 2 1 1 [] 1) sender).0 ≡ some (acked 1)
unfolding SelectiveRepeat.handle_ack slide Dict.contains Dict.erase ℕ_discrete
freed = refl

abbrev next : SelectiveRepeat
next = (SelectiveRepeat.handle_ack (new 2 1 1 [] 1) sender).1

next_room : HasRoom next (length (cuts next (7 ∷ 8 ∷ [])))
unfolding SelectiveRepeat.handle_ack offsets slide Dict.contains Dict.erase ℕ_discrete
next_room = record {
  op_type = omega arith;
  protocol = omega arith;
  chunk_size = omega arith;
  numbers = omega arith;
}

push_payload-IsWithin_example : IsWithin (push_payload runtime (λ n. n) (7 ∷ 8 ∷ []) next).1
unfolding SelectiveRepeat.handle_ack slide
push_payload-IsWithin_example =
    push_payload-IsWithin runtime (λ n. n) (new 2 1 1 [] 1) sender 1 (7 ∷ 8 ∷ []) runtime-IsRuntime
      sender-IsSending (omega arith) (omega arith) freed (omega arith) next_room
