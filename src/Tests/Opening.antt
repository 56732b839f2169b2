-- ===== src/Tests/Opening.antt =====
-- A client that uploads a file of 5 bytes named "a.b" by selective repeat.
use fiuba_redes.Common.{refl, arith, [], ◌∷◌}
use fiuba_redes.Constants.{op_type_upload}
use fiuba_redes.Factory.{AnyProtocol, selective_repeat, choose_selective_repeat, create_protocol}
use fiuba_redes.Factory.Opening.{Opens, create_protocol-Opens}
use fiuba_redes.Handshake.{syn_payload}
use fiuba_redes.SelectiveRepeat
use fiuba_redes.Tests.Packets.{runtime, runtime-IsRuntime}

abbrev uploader : AnyProtocol
uploader = selective_repeat (SelectiveRepeat.init op_type_upload)

create_protocol-Opens_example : Opens runtime (97 ∷ 46 ∷ 98 ∷ []) 5 op_type_upload uploader
unfolding create_protocol syn_payload
create_protocol-Opens_example =
    create_protocol-Opens runtime choose_selective_repeat (97 ∷ 46 ∷ 98 ∷ []) 5 op_type_upload
      uploader runtime-IsRuntime (omega arith) (omega arith) (omega arith) refl
