-- ===== src/TrackHeap/Tests.antt =====
-- Runs of the heap, and the properties at concrete inputs.
use cs.Base.{ℕ, zero, suc, ◌+◌, ◌<◌, ◌≤◌, ◌≡◌, refl, arith, Option, none, some}
use cs.TrackHeap.{HeapNode, TrackQueue, Tree, int_max, tpq_add, tpq_pop}
use cs.TrackHeap.Order.{key, Ordered, total}
use cs.TrackHeap.Add.{tpq_add-Ordered}
use cs.TrackHeap.Pop.{NullFrom, tpq_pop_lem}

-- A heap of the priorities 2, 5 and 3.
abbrev three : Tree
three zero = record { priority = 2; val = 10 }
three (suc zero) = record { priority = 5; val = 11 }
three (suc (suc zero)) = record { priority = 3; val = 12 }
three (suc (suc (suc j))) = record { priority = int_max; val = 0 }

three-Ordered : Ordered three 3
three-Ordered zero h b = absurd (omega arith)
three-Ordered (suc zero) h b = omega arith
three-Ordered (suc (suc zero)) h b = omega arith
three-Ordered (suc (suc (suc j))) h b = absurd (omega arith)

three-NullFrom : NullFrom three 3
three-NullFrom zero h b = absurd (omega arith)
three-NullFrom (suc zero) h b = absurd (omega arith)
three-NullFrom (suc (suc zero)) h b = absurd (omega arith)
three-NullFrom (suc (suc (suc j))) h b = refl

abbrev queue : TrackQueue
queue = record { tree = three; map = λ v. 0; size = 3 }

-- A node that comes before the root.
tpq_add-Ordered_example :
    (q' : TrackQueue) × (tpq_add queue 7 1 ≡ some q')
    × (q'.size ≡ 4)
    × Ordered q'.tree q'.size
    × ((j : ℕ) → j < q'.size → key q'.tree 0 ≤ key q'.tree j)
    × ((f : HeapNode → ℕ)
        → total f q'.tree q'.size ≡ total f three 3 + f (record { priority = 1; val = 7 }))
tpq_add-Ordered_example = tpq_add-Ordered queue 7 1 three-Ordered (omega arith) (omega arith)

tpq_pop_lem_example :
    (q' : TrackQueue) × (tpq_pop queue ≡ some (10, q'))
    × ((j : ℕ) → j < 3 → key three 0 ≤ key three j)
    × (q'.size ≡ 2)
    × NullFrom q'.tree 2
    × ((f : HeapNode → ℕ) → total f q'.tree 2 + f (three 0) ≡ total f three 3)
tpq_pop_lem_example = tpq_pop_lem queue 2 refl (omega arith) three-Ordered three-NullFrom

-- A heap of the priorities 0, 3, 1 and 5: what `tpq_pop` leaves is no heap, with 3 above 1.
abbrev four : Tree
four zero = record { priority = 0; val = 0 }
four (suc zero) = record { priority = 3; val = 1 }
four (suc (suc zero)) = record { priority = 1; val = 2 }
four (suc (suc (suc zero))) = record { priority = 5; val = 3 }
four (suc (suc (suc (suc j)))) = record { priority = int_max; val = 0 }

priority_at : Option (ℕ × TrackQueue) → ℕ → ℕ
priority_at none i = 99
priority_at (some (v, q)) i = (q.tree i).priority

abbrev after_pop : Option (ℕ × TrackQueue)
after_pop = tpq_pop (record { tree = four; map = λ v. v; size = 4 })

root_after : priority_at after_pop 0 ≡ 3
unfolding tpq_pop priority_at
root_after = refl

right_after : priority_at after_pop 2 ≡ 1
unfolding tpq_pop priority_at
right_after = refl
