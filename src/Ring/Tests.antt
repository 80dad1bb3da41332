-- ===== src/Ring/Tests.antt =====
-- A circular buffer of three cells, whose two entries go round its end.
use cs.Base.{ℕ, zero, suc, ◌+◌, ◌<◌, ◌≡◌, refl, arith, some, [], ◌∷◌, get_elem?}
use cs.Ring.{Ring, ok, dne, push, pop}
use cs.Ring.Rem.{rem}
use cs.Ring.Inv.{wrap}
use cs.Ring.Refine.{Holds, push-Holds, pop-Holds}

abbrev two : Ring ℕ
two = record { buf = 9 ∷ 7 ∷ 8 ∷ []; start = 2; stop = 1; size = 2 }

abbrev three : Ring ℕ
three = record { buf = 9 ∷ 7 ∷ 8 ∷ []; start = 2; stop = 2; size = 3 }

two_entry : (i : ℕ) → i < 2 → get_elem? two.buf (wrap 3 (two.start + i)) ≡ get_elem? (8 ∷ 9 ∷ []) i
two_entry zero l = refl
two_entry (suc zero) l = refl
two_entry (suc (suc i)) l = absurd (omega arith)

two-Holds : Holds 3 two (8 ∷ 9 ∷ [])
two-Holds = record { valid = ground arith; count = refl; entry = two_entry }

push-Holds_example : ((push 3 two 5).0 ≡ ok) × Holds 3 (push 3 two 5).1 (8 ∷ 9 ∷ 5 ∷ [])
push-Holds_example = push-Holds two (8 ∷ 9 ∷ []) 5 two-Holds (omega arith)

pop-Holds_example :
    let (c, out, cb') = pop 3 two in (c ≡ ok) × (out ≡ some 8) × Holds 3 cb' (9 ∷ [])
pop-Holds_example = pop-Holds two (9 ∷ []) 8 two-Holds

-- Five entries round the end of a buffer of six; each of them can be taken out.
abbrev round_end : Ring ℕ
round_end = record { buf = 8 ∷ 9 ∷ 1 ∷ 5 ∷ 6 ∷ 7 ∷ []; start = 3; stop = 2; size = 5 }

rem_from_first :
    rem 6 round_end 6
    ≡ (ok, record { buf = 9 ∷ 9 ∷ 1 ∷ 5 ∷ 7 ∷ 8 ∷ []; start = 3; stop = 1; size = 4 })
unfolding rem
rem_from_first = refl

rem_from_second :
    rem 6 round_end 8
    ≡ (ok, record { buf = 9 ∷ 9 ∷ 1 ∷ 5 ∷ 6 ∷ 7 ∷ []; start = 3; stop = 1; size = 4 })
unfolding rem
rem_from_second = refl

rem_absent : rem 6 round_end 1 ≡ (dne, round_end)
unfolding rem
rem_absent = refl
