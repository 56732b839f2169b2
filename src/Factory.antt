-- ===== src/Factory.antt =====
-- tp1/src/lib/common/protocol_factory.py: the choice of a protocol, by the command line's name or by
-- the first datagram of a client. The names are the constructors of Choice or another text.
pub mod Methods
pub mod Opening
use fiuba_redes.Common.{ℕ, ◌==◌, nat_eq, if◌then◌else◌}
use fiuba_redes.Constants.{stop_and_wait_protocol, selective_repeat_protocol}
use fiuba_redes.Exceptions.{Exception, Result, ok, raise, ◌>>=◌, value_error}
use fiuba_redes.Packet.{Bytes, from_bytes}
use fiuba_redes.Runtime.{Text, Runtime}
use fiuba_redes.SelectiveRepeat.{SelectiveRepeat}
use fiuba_redes.SelectiveRepeat
use fiuba_redes.StopAndWait.{StopAndWait}
use fiuba_redes.StopAndWait

-- A protocol object of either class.
pub data AnyProtocol : Type 0 where
  stop_and_wait : StopAndWait → AnyProtocol
  selective_repeat : SelectiveRepeat → AnyProtocol

pub data Choice : Type 0 where
  numbered : ℕ → Choice
  choose_stop_and_wait choose_selective_repeat : Choice
  named : Text → Choice

unfoldable pub protocol_id_from_choice : Choice → Result ℕ
protocol_id_from_choice (numbered n) = ok n
protocol_id_from_choice choose_stop_and_wait = ok stop_and_wait_protocol
protocol_id_from_choice choose_selective_repeat = ok selective_repeat_protocol
protocol_id_from_choice (named name) = raise value_error

unfoldable pub create_protocol : Choice → ℕ → Result AnyProtocol
create_protocol choose_stop_and_wait op_type = ok (stop_and_wait (StopAndWait.init op_type))
create_protocol choose_selective_repeat op_type =
    ok (selective_repeat (SelectiveRepeat.init op_type))
create_protocol other op_type = raise value_error

unfoldable pub protocol_factory_create : Runtime → Bytes → Result AnyProtocol
protocol_factory_create r raw = do
  pkt ← from_bytes r.crc32 raw
  if pkt.protocol == stop_and_wait_protocol
      then ok (stop_and_wait (StopAndWait.init pkt.op_type))
      else if pkt.protocol == selective_repeat_protocol
      then ok (selective_repeat (SelectiveRepeat.init pkt.op_type))
      else raise value_error
