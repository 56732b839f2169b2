-- ===== src/Factory/Methods.antt =====
-- The methods that client and server call on a protocol object of either class. A method that reads
-- the clock takes a reading for each packet, by its number.
use fiuba_redes.Common.{ℕ, Bool, true, false, Option, List, [], ◌∷◌}
use fiuba_redes.Event.{Event}
use fiuba_redes.Exceptions.{Result}
use fiuba_redes.Factory.{AnyProtocol, stop_and_wait, selective_repeat}
use fiuba_redes.Method.{M}
use fiuba_redes.Packet.{Bytes}
use fiuba_redes.Runtime.{Text, Runtime}
use fiuba_redes.SelectiveRepeat.{SelectiveRepeat}
use fiuba_redes.SelectiveRepeat
use fiuba_redes.StopAndWait.{StopAndWait}
use fiuba_redes.StopAndWait

-- Dispatch on the class of the object.
abbrev on_class {ℓ} : {A : Type ℓ} → M StopAndWait A → M SelectiveRepeat A → M AnyProtocol A
on_class f g (stop_and_wait s) = let (result, s') = f s in (result, stop_and_wait s')
on_class f g (selective_repeat s) = let (result, s') = g s in (result, selective_repeat s')

-- `protocol.window` is not empty. A StopAndWait inherits an empty one and never fills it.
abbrev pub has_window : AnyProtocol → Bool
has_window (stop_and_wait s) = false
has_window (selective_repeat s) = elim s.window [ [] ↦ false | item ∷ items ↦ true ]

-- `getattr(protocol, '_waiting_ack', False)`
abbrev pub is_waiting_ack : AnyProtocol → Bool
is_waiting_ack (stop_and_wait s) = s.waiting_ack
is_waiting_ack (selective_repeat s) = false

abbrev pub window_size : AnyProtocol → ℕ
window_size (stop_and_wait s) = s.window_size
window_size (selective_repeat s) = s.window_size

module _ (r : Runtime) where
  abbrev pub syn : AnyProtocol → Text → ℕ → Result Bytes
  syn (stop_and_wait s) = StopAndWait.syn r s
  syn (selective_repeat s) = SelectiveRepeat.syn r s

  abbrev pub syn_ack_to_bytes : AnyProtocol → Result Bytes
  syn_ack_to_bytes (stop_and_wait s) = StopAndWait.syn_ack_to_bytes r s
  syn_ack_to_bytes (selective_repeat s) = SelectiveRepeat.syn_ack_to_bytes r s

  abbrev pub ack : AnyProtocol → ℕ → Result Bytes
  ack (stop_and_wait s) = StopAndWait.ack r s
  ack (selective_repeat s) = SelectiveRepeat.ack r s

  abbrev pub fin_ack : AnyProtocol → Result Bytes
  fin_ack (stop_and_wait s) = StopAndWait.fin_ack r s
  fin_ack (selective_repeat s) = SelectiveRepeat.fin_ack r s

  abbrev pub handle_handshake : Bytes → M AnyProtocol (Option Event)
  handle_handshake raw =
      on_class (StopAndWait.handle_handshake r raw) (SelectiveRepeat.handle_handshake r raw)

  abbrev pub handle_packet : Bytes → M AnyProtocol (Option Event)
  handle_packet raw =
      on_class (StopAndWait.handle_packet r raw) (SelectiveRepeat.handle_packet r raw)

  abbrev pub get_timedouts : ℕ → (ℕ → ℕ) → M AnyProtocol (List Bytes)
  get_timedouts now clock =
      on_class (StopAndWait.get_timedouts r now (clock 0))
        (SelectiveRepeat.get_timedouts r now clock)

  abbrev pub push_payload : (ℕ → ℕ) → Bytes → M AnyProtocol (List Bytes)
  push_payload clock block =
      on_class (λ s. StopAndWait.push_payload r (clock s.seq_num) block s)
        (SelectiveRepeat.push_payload r clock block)

  abbrev pub fin : (ℕ → ℕ) → M AnyProtocol Bytes
  fin clock = on_class (λ s. StopAndWait.fin r (clock s.seq_num) s) (SelectiveRepeat.fin r clock)
