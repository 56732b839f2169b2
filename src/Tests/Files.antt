-- ===== src/Tests/Files.antt =====
-- A disk with one file, which is read in blocks of two and then written anew.
use fiuba_redes.Common.{◌*◌, ◌≡◌, refl, some, List, [], ◌∷◌, take, flatten, ℕ_discrete}
use fiuba_redes.Common.Dict
use fiuba_redes.Exceptions.{ok}
use fiuba_redes.File.{FileHandler, init, text_eq, open_for_read}
use fiuba_redes.File.Content.{read_blocks, read_blocks-open_for_read}
use fiuba_redes.Method.{◌>>◌}
use fiuba_redes.Packet.{Bytes}
use fiuba_redes.Runtime.{Text}

abbrev storage : Text → Text
storage name = 47 ∷ name

abbrev full : FileHandler
full = init (((47 ∷ 97 ∷ []), 1 ∷ 2 ∷ 3 ∷ []) ∷ [])

stored : Dict.lookup (storage (97 ∷ [])) full.disk ≡ some (1 ∷ 2 ∷ 3 ∷ [])
unfolding Dict.lookup text_eq ℕ_discrete
stored = refl

read_blocks-open_for_read_example :
    let (result, h') = (open_for_read storage (some (97 ∷ [])) >> read_blocks 2 2) full in
    (blocks : List Bytes) × (result ≡ ok blocks) × (flatten blocks ≡ take (2 * 2) (1 ∷ 2 ∷ 3 ∷ []))
read_blocks-open_for_read_example =
    read_blocks-open_for_read storage (97 ∷ []) (1 ∷ 2 ∷ 3 ∷ []) 2 2 full stored
