-- ===== src/RecencyBuffer/Tests.antt =====
-- The property of the buffer of the last numbers at a concrete input.
use cs.Base.{◌≡◌, arith, some, [], ◌∷◌}
use cs.RecencyBuffer.{RecBuffer, rec_buffer_get}
use cs.RecencyBuffer.Recent.{with_all, rec_buffer_get_lem}

abbrev junk : RecBuffer
junk = record { buf = 4 ∷ []; start = 2; num = 9 }

rec_buffer_get_lem_example : rec_buffer_get (with_all junk (7 ∷ 8 ∷ [])) 1 ≡ some 8
rec_buffer_get_lem_example = rec_buffer_get_lem junk (7 ∷ 8 ∷ []) 1 (omega arith)
