-- ===== src/Ring/Refine.antt =====
-- A circular buffer against the list of its entries, oldest first.
use native.Mathlib.Decide.{ℕ_discrete}
use cs.Base.{
  ℕ, suc, ◌+◌, ◌-◌, ◌≤◌, ◌<◌, ◌≡◌, refl, sym, ap, ◌∙◌, arith, none, some, List, [], ◌∷◌, ◌++◌,
  length, length-append, get_elem?, get_elem?-set_self, get_elem?-set_ne, get_elem?-snoc,
  get_elem?-append, set,
}
use cs.Ring.{Ring, before, ok, full, empty, init, push, top, pop, pop_end}
use cs.Ring.Inv.{
  IsValid, wrap, push-IsValid, pop-IsValid, pop_end-IsValid, next_place, before_place,
}

-- A valid buffer holds the entries `xs`.
pub record Holds {ℓ} {A : Type ℓ} (cap : ℕ) (cb : Ring A) (xs : List A) : Type ℓ where
  pub valid : IsValid cap cb
  pub count : length xs ≡ cb.size
  pub entry : (i : ℕ) → i < cb.size → get_elem? cb.buf (wrap cap (cb.start + i)) ≡ get_elem? xs i

module _ {ℓ} {A : Type ℓ} {cap : ℕ} where
  pub init-Holds : (cb : Ring A) → IsValid cap (init cb) → Holds cap (init cb) []
  unfolding init
  init-Holds cb v = record { valid = v; count = refl; entry = λ i h. elim h [ ] }

  push_full : (cb : Ring A) (x : A) → cap ≤ cb.size → push cap cb x ≡ (full, cb)
  unfolding push
  push_full cb x h = ground arith

  push_room : (cb : Ring A) (x : A) → IsValid cap cb → cb.size < cap → (push cap cb x).0 ≡ ok
  unfolding push
  push_room cb x v h = ground arith

  -- The cell that `push` writes, and those that it leaves.
  push_entry :
      (cb : Ring A) (xs : List A) (x : A)
      → Holds cap cb xs
      → cb.size < cap
      → (i : ℕ) → i < suc cb.size
      → get_elem? (set cb.buf cb.stop x) (wrap cap (cb.start + i)) ≡ get_elem? (xs ++ (x ∷ [])) i
  push_entry cb xs x h room i l = elim (ℕ_discrete i cb.size) [
    | yes e ↦
        let v = h.valid in
        rw (e, ← v.stop_at, get_elem?-set_self cb.buf cb.stop x (ground arith), ← h.count)
          (sym (get_elem?-snoc xs x))
    | no ne ↦
        let v = h.valid in
        let n = h.count in
        rw
          (
            get_elem?-set_ne cb.buf cb.stop (wrap cap (cb.start + i)) x (ground arith),
            get_elem?-append xs (x ∷ []) i (omega arith),
          )
          (h.entry i (omega arith))
  ]

  push_state :
      (cb : Ring A) (x : A)
      → IsValid cap cb
      → cb.size < cap
      → ((push cap cb x).1.buf ≡ set cb.buf cb.stop x)
        × ((push cap cb x).1.start ≡ cb.start)
        × ((push cap cb x).1.size ≡ suc cb.size)
  unfolding push
  push_state cb x v h = ground arith

  -- `push` on a circular buffer that holds `xs`, fewer entries than its capacity, succeeds and
  -- leaves a buffer that holds `xs` with the new entry at the end.
  pub push-Holds :
      (cb : Ring A) (xs : List A) (x : A)
      → Holds cap cb xs
      → length xs < cap
      → ((push cap cb x).0 ≡ ok) × Holds cap (push cap cb x).1 (xs ++ (x ∷ []))
  push-Holds cb xs x h room =
      let v = h.valid in
      let n = h.count in
      let s = push_state cb x v (omega arith) in
      (
        push_room cb x v (omega arith),
        record {
          valid = push-IsValid cb x v;
          count = omega (arith, s.2, length-append xs (x ∷ []));
          entry = λ i l. rw (s.0, s.1) (push_entry cb xs x h (omega arith) i (omega (arith, s.2)));
        },
      )

  -- `push` on a circular buffer that holds at least as many entries as its capacity returns
  -- CB_E_FULL and changes nothing.
  pub push-Holds_full :
      (cb : Ring A) (xs : List A) (x : A)
      → Holds cap cb xs
      → cap ≤ length xs
      → push cap cb x ≡ (full, cb)
  push-Holds_full cb xs x h most = let n = h.count in push_full cb x (omega arith)

  pop_state :
      (cb : Ring A)
      → IsValid cap cb
      → 0 < cb.size
      → let (c, out, cb') = pop cap cb in
        (c ≡ ok)
        × (out ≡ get_elem? cb.buf cb.start)
        × (cb'.buf ≡ cb.buf)
        × (cb'.start ≡ wrap cap (cb.start + 1))
        × (suc cb'.size ≡ cb.size)
  unfolding pop
  pop_state cb v h = ground (arith, next_place cap cb.start v.start_in v.small)

  -- `pop` on a circular buffer that holds `x` and then `xs` returns `x` and leaves a buffer that
  -- holds `xs`.
  pub pop-Holds :
      (cb : Ring A) (xs : List A) (x : A)
      → Holds cap cb (x ∷ xs)
      → let (c, out, cb') = pop cap cb in (c ≡ ok) × (out ≡ some x) × Holds cap cb' xs
  pop-Holds cb xs x h =
      let v = h.valid in
      let n = h.count in
      let s = pop_state cb v (omega arith) in
      (
        s.0,
        s.1 ∙ ap (get_elem? cb.buf) (ground arith) ∙ h.entry 0 (omega arith),
        record {
          valid = pop-IsValid cb v;
          count = omega (arith, s.4);
          entry = λ i l.
              rw (s.2, s.3)
                (ap (get_elem? cb.buf) (ground arith) ∙ h.entry (suc i) (omega (arith, s.4)));
        },
      )

  pub pop-Holds_empty : (cb : Ring A) → Holds cap cb [] → pop cap cb ≡ (empty, none, cb)
  unfolding pop
  pop-Holds_empty cb h = let n = h.count in ground arith

  -- `top` on a circular buffer that holds `x` and then `xs` returns `x`.
  pub top-Holds :
      (cb : Ring A) (xs : List A) (x : A) → Holds cap cb (x ∷ xs) → top cap cb ≡ (ok, some x)
  unfolding top
  top-Holds cb xs x h =
      let v = h.valid in
      let n = h.count in
      let e : get_elem? cb.buf cb.start ≡ some x =
        ap (get_elem? cb.buf) (ground arith) ∙ h.entry 0 (omega arith) in
      ground (arith, e)

  pop_end_state :
      (cb : Ring A)
      → IsValid cap cb
      → 0 < cb.size
      → let (c, out, cb') = pop_end cap cb in
        (c ≡ ok)
        × (out ≡ get_elem? cb.buf (wrap cap (cb.start + (cb.size - 1))))
        × (cb'.buf ≡ cb.buf)
        × (cb'.start ≡ cb.start)
        × (suc cb'.size ≡ cb.size)
  unfolding pop_end
  pop_end_state cb v h =
      let e : before cap cb.stop ≡ wrap cap (cb.start + (cb.size - 1)) =
        before_place cap cb.stop (ground arith) v.small ∙ ground arith in
      rw e (ground arith)

  -- `pop_end` on a circular buffer that holds `xs` and then `x` returns `x` and leaves a buffer
  -- that holds `xs`.
  pub pop_end-Holds :
      (cb : Ring A) (xs : List A) (x : A)
      → Holds cap cb (xs ++ (x ∷ []))
      → let (c, out, cb') = pop_end cap cb in (c ≡ ok) × (out ≡ some x) × Holds cap cb' xs
  pop_end-Holds cb xs x h =
      let v = h.valid in
      let n : suc (length xs) ≡ cb.size = omega (arith, h.count, length-append xs (x ∷ [])) in
      let s = pop_end_state cb v (omega arith) in
      (
        s.0,
        s.1
            ∙ h.entry (cb.size - 1) (omega arith)
            ∙ ap (get_elem? (xs ++ (x ∷ []))) (omega arith)
            ∙ get_elem?-snoc xs x,
        record {
          valid = pop_end-IsValid cb v;
          count = omega (arith, s.4);
          entry = λ i l.
              rw (s.2, s.3)
                (h.entry i (omega (arith, s.4))
                  ∙ get_elem?-append xs (x ∷ []) i (omega (arith, s.4)));
        },
      )

  pub pop_end-Holds_empty : (cb : Ring A) → Holds cap cb [] → pop_end cap cb ≡ (empty, none, cb)
  unfolding pop_end
  pop_end-Holds_empty cb h = let n = h.count in ground arith
