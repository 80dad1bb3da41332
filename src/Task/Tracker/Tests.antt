-- ===== src/Task/Tracker/Tests.antt =====
-- A tracker that has just been set up, with two tasks made and the first of them gone.
use cs.Base.{◌<◌, ◌≡◌, refl, arith, some, [], ◌∷◌, replicate}
use cs.Task.{Tid, tid_id}
use cs.Task.Tracker.{Tracker, tt_init, tt_get, tt_return}
use cs.Task.Tracker.Alloc.{Pool, count, tt_init-Pool, tt_get-Pool, tt_return-Pool}

abbrev storage : Tracker
storage = record { buf = replicate 128 0; start = 5; stop = 9; size = 4 }

abbrev all_free : (trk : Tracker) × (tt_init storage ≡ some trk) × Pool trk []
all_free = tt_init-Pool storage refl

tt_get-Pool_example :
    (tid : Tid) × (trk : Tracker) × (tt_get all_free.0 ≡ some (tid, trk))
    × (tid_id tid < 128)
    × (count (tid_id tid) [] ≡ 0)
    × Pool trk (tid ∷ [])
tt_get-Pool_example = tt_get-Pool all_free.0 [] all_free.2 (omega arith)

abbrev one_used :
    (tid : Tid) × (trk : Tracker) × (tt_get all_free.0 ≡ some (tid, trk))
    × (tid_id tid < 128)
    × (count (tid_id tid) [] ≡ 0)
    × Pool trk (tid ∷ [])
one_used = tt_get-Pool all_free.0 [] all_free.2 (omega arith)

tt_return-Pool_example :
    (trk : Tracker) × (tt_return one_used.0 one_used.1 ≡ some trk) × Pool trk []
tt_return-Pool_example = tt_return-Pool one_used.1 [] [] one_used.0 one_used.5
