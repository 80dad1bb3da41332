-- ===== src/ClockQueue/Order.antt =====
-- Lists of tasks in the order of their ticks.
use native.Mathlib.Decide.{ℕ_discrete}
use cs.Base.{
  ℕ, suc, ◌≤◌, ◌≡◌, refl, arith, List, [], ◌∷◌, true, false, ◌||◌, length, if◌then◌else◌, ◌==◌, ltb,
}
use cs.TaskQueue.Refine.{mem, Distinct}

-- The place of the task `i`, due at `t`: behind the tasks that are due no later.
abbrev pub insert : (ℕ → ℕ) → ℕ → ℕ → List ℕ → List ℕ
insert due t i [] = i ∷ []
insert due t i (x ∷ xs) = if ltb t (due x) then i ∷ x ∷ xs else x ∷ insert due t i xs

abbrev pub Sorted : (ℕ → ℕ) → List ℕ → Type 0
Sorted due [] = Unit {0}
Sorted due (x ∷ []) = Unit {0}
Sorted due (x ∷ y ∷ ys) = (due x ≤ due y) × Sorted due (y ∷ ys)

pub length-insert :
    (due : ℕ → ℕ) (t i : ℕ) (xs : List ℕ) → length (insert due t i xs) ≡ suc (length xs)
length-insert due t i [] = refl
length-insert due t i (x ∷ xs) = ground (arith, length-insert due t i xs)

pub mem-insert :
    (due : ℕ → ℕ) (t i j : ℕ) (xs : List ℕ) → mem j (insert due t i xs) ≡ (j == i || mem j xs)
mem-insert due t i j [] = refl
mem-insert due t i j (x ∷ xs) = ground (arith, mem-insert due t i j xs)

pub Distinct-insert :
    (due : ℕ → ℕ) (t i : ℕ) (xs : List ℕ)
    → Distinct xs
    → mem i xs ≡ false
    → Distinct (insert due t i xs)
Distinct-insert due t i [] d m = (refl, tt)
Distinct-insert due t i (x ∷ xs) d m =
    ground (arith, Distinct-insert due t i xs d.1, mem-insert due t i x xs)

-- The order depends on the ticks of the tasks in the list only.
pub Sorted-ext :
    (due due' : ℕ → ℕ) (xs : List ℕ)
    → ((j : ℕ) → mem j xs ≡ true → due' j ≡ due j)
    → Sorted due xs
    → Sorted due' xs
Sorted-ext due due' [] e s = tt
Sorted-ext due due' (x ∷ []) e s = tt
Sorted-ext due due' (x ∷ y ∷ ys) e s = (
  omega (arith, s.0, e x (ground arith), e y (ground arith)),
  Sorted-ext due due' (y ∷ ys) (λ j m. e j (ground arith)) s.1,
)

pub insert-Sorted :
    (due : ℕ → ℕ) (t i : ℕ) (xs : List ℕ)
    → due i ≡ t
    → Sorted due xs
    → Sorted due (insert due t i xs)
insert-Sorted due t i [] e s = tt
insert-Sorted due t i (x ∷ []) e s = ground arith
insert-Sorted due t i (x ∷ y ∷ ys) e s = ground (arith, insert-Sorted due t i (y ∷ ys) e s.1)

-- The rest of a sorted list is sorted.
pub Sorted-rest : (due : ℕ → ℕ) (x : ℕ) (xs : List ℕ) → Sorted due (x ∷ xs) → Sorted due xs
Sorted-rest due x [] s = tt
Sorted-rest due x (y ∷ ys) s = s.1

-- The first of a sorted list is due no later than the others.
pub Sorted-first :
    (due : ℕ → ℕ) (x j : ℕ) (xs : List ℕ) → Sorted due (x ∷ xs) → mem j xs ≡ true → due x ≤ due j
Sorted-first due x j [] s m = ground arith
Sorted-first due x j (y ∷ ys) s m = elim (ℕ_discrete j y) [
  | yes e ↦ rw e s.0
  | no n ↦ omega (arith, s.0, Sorted-first due y j ys s.1 (ground arith))
]
