-- ===== src/Event.antt =====
-- tp1/src/lib/common/event.py: the events that a protocol hands to the client and the server, one
-- constructor for each set of attributes that the code gives an `Event`.
use fiuba_redes.Common.{ℕ, Option, List}
use fiuba_redes.Packet.{Bytes}
use fiuba_redes.Runtime.{Text, ℤ}

pub data Event : Type 0 where
  -- EVENT_TYPE_HANDSHAKE: file name, file size, operation
  handshake : Text → ℤ → ℕ → Event
  -- EVENT_TYPE_ACK_INIT: operation, next
  ack_init : ℕ → ℕ → Event
  -- EVENT_TYPE_ACK: next
  acked : ℕ → Event
  -- EVENT_TYPE_DATA: the number to acknowledge, and `data` where the event has that attribute
  received : ℕ → Option (List Bytes) → Event
  -- EVENT_TYPE_SYN_ACK, EVENT_TYPE_CLOSE, EVENT_TYPE_CLOSE_FIN
  syn_acked closing closed : Event
