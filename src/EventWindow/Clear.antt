-- ===== src/EventWindow/Clear.antt =====
-- The loop that clears the keys of a window: when it ends, and when it does not.
use cs.Base.{
  ℕ, zero, suc, ◌+◌, ◌%◌, ◌<◌, ◌≤◌, ◌≡◌, refl, arith, Bool, false, ◌&&◌, none, some, if◌then◌else◌,
  ltb, leb, ◌==◌, add32, eq→==, ne→==,
}
use cs.EventWindow.{Manager, map_key, clear_until}

-- From a key below 64, the loop of `ev_wm_invalidate_after` that clears the keys of a window up to
-- a bound of 64 or more does not end after any number of rounds.
pub clear_until_never :
    (n : ℕ) (wm : Manager) (k bound : ℕ) → k < 64 → 64 ≤ bound → clear_until n wm k bound ≡ none
unfolding clear_until
clear_until_never zero wm k bound b h = refl
clear_until_never (suc n) wm k bound b h =
    let ih = clear_until_never n (map_key wm k none) (add32 k 1 % 64) bound (omega arith) h in
    rw (ne→== k bound (omega arith), ih) refl

-- The keys from `k` on, `n` of them.
abbrev pub between : ℕ → ℕ → ℕ → Bool
between k n i = leb k i && ltb i (k + n)

next_key : (k n : ℕ) → k + suc n < 64 → add32 k 1 % 64 ≡ k + 1
next_key k n b = omega arith

-- A round of the loop.
clear_until-step :
    (n : ℕ) (wm wm' : Manager) (k k' bound bound' : ℕ)
    → (k == bound) ≡ false
    → add32 k 1 % 64 ≡ k'
    → bound' ≡ bound
    → clear_until n (map_key wm k none) k' bound' ≡ some wm'
    → clear_until (suc n) wm k bound ≡ some wm'
unfolding clear_until
clear_until-step n wm wm' k k' bound bound' differs e s run = rw (differs, e, ← s) run

clear_until-round :
    (n : ℕ) (wm wm' : Manager) (k : ℕ)
    → k + suc n < 64
    → clear_until (suc n) (map_key wm k none) (k + 1) (k + 1 + n) ≡ some wm'
    → clear_until (suc (suc n)) wm k (k + suc n) ≡ some wm'
clear_until-round n wm wm' k b run =
    clear_until-step (suc n) wm wm' k (k + 1) (k + suc n) (k + 1 + n)
      (ne→== k (k + suc n) (omega arith)) (next_key k n b) (omega arith) run

-- Up to a bound below 64, the loop ends, and the keys from `k` on are cleared, and no others.
pub clear_until_lem :
    (n : ℕ) (wm : Manager) (k : ℕ)
    → k + n < 64
    → (wm' : Manager) × (clear_until (suc n) wm k (k + n) ≡ some wm')
      × ((i : ℕ) → wm'.window_map i ≡ (if between k n i then none else wm.window_map i))
unfolding clear_until
clear_until_lem zero wm k b = (wm, rw (eq→== k (k + 0) (omega arith)) refl, λ i. ground arith)
clear_until_lem (suc n) wm k b =
    let (wm', run, h) = clear_until_lem n (map_key wm k none) (k + 1) (omega arith) in
    (wm', clear_until-round n wm wm' k b run, λ i. ground (arith, h i))
