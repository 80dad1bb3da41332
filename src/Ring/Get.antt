-- ===== src/Ring/Get.antt =====
-- The indexed read of a circular buffer.
use native.Mathlib.Decide.{dec_lt}
use cs.Base.{
  ℕ, ◌+◌, ◌-◌, ◌≤◌, ◌<◌, ◌≡◌, ap, arith, Option, none, some, List, get_elem?, get_elem?-lt,
  get_elem?-ge, ne→==, lt→ltb, le→ltb, lt→leb, le→leb, if-same, ◌==◌,
}
use cs.Ring.{Ring, Code, ok, dne, get}
use cs.Ring.Inv.{IsValid, wrap}
use cs.Ring.Refine.{Holds}

-- What `get` returns for an entry that is there, and for one that is not.
abbrev pub found {ℓ} : {A : Type ℓ} → Option A → Code × Option A
found none = (dne, none)
found (some a) = (ok, some a)

module _ {ℓ} {A : Type ℓ} {cap : ℕ} where
  get_inside :
      (cb : Ring A) (i : ℕ)
      → IsValid cap cb
      → i < cb.size
      → get cap cb i ≡ (ok, get_elem? cb.buf (wrap cap (cb.start + i)))
  unfolding get
  get_inside cb i v h = elim (dec_lt (cb.start + cb.size) cap) [
    | yes p ↦
        rw
          (
            ne→== cb.size 0 (omega arith),
            lt→leb cap (cb.start + cb.size) p,
            lt→ltb (i + cb.start) (cb.start + cb.size) (omega arith),
          )
          (ap (λ k. (ok, get_elem? cb.buf k)) (ground arith))
    | no p ↦ elim (dec_lt (cb.start + i) cap) [
      | yes q ↦
          rw
            (
              ne→== cb.size 0 (omega arith),
              le→leb cap (cb.start + cb.size) (omega arith),
              lt→ltb (i + cb.start) (cb.start + (cap - cb.start)) (omega arith),
            )
            (ap (λ k. (ok, get_elem? cb.buf k)) (ground arith))
      | no q ↦
          rw
            (
              ne→== cb.size 0 (omega arith),
              le→leb cap (cb.start + cb.size) (omega arith),
              le→ltb (i + cb.start) (cb.start + (cap - cb.start)) (omega arith),
              lt→ltb (i + cb.start - (cb.start + (cap - cb.start))) cb.stop (ground arith),
            )
            (ap (λ k. (ok, get_elem? cb.buf k)) (ground arith))
    ]
  ]

  get_outside : (cb : Ring A) (i : ℕ) → IsValid cap cb → cb.size ≤ i → get cap cb i ≡ (dne, none)
  unfolding get
  get_outside cb i v h = elim (dec_lt (cb.start + cb.size) cap) [
    | yes p ↦
        rw
          (
            lt→leb cap (cb.start + cb.size) p,
            le→ltb (i + cb.start) (cb.start + cb.size) (omega arith),
            le→ltb (i + cb.start - (cb.start + cb.size)) 0 (omega arith),
          )
          (if-same (cb.size == 0) (dne, none))
    | no p ↦
        rw
          (
            le→leb cap (cb.start + cb.size) (omega arith),
            le→ltb (i + cb.start) (cb.start + (cap - cb.start)) (omega arith),
            le→ltb (i + cb.start - (cb.start + (cap - cb.start))) cb.stop (ground arith),
          )
          (if-same (cb.size == 0) (dne, none))
  ]

  -- `get` on a circular buffer that holds `xs` returns the entry of `xs` at the index, counted
  -- from the oldest, and CB_E_DNE outside.
  pub get-Holds :
      (cb : Ring A) (xs : List A) (i : ℕ) → Holds cap cb xs → get cap cb i ≡ found (get_elem? xs i)
  get-Holds cb xs i h = elim (dec_lt i cb.size) [
    | yes l ↦
        let e = h.entry i l in
        let n = h.count in
        let (a, ea) = get_elem?-lt xs i (omega arith) in rw (get_inside cb i h.valid l, e, ea)
    | no g ↦
        let n = h.count in
        rw (get_outside cb i h.valid (omega arith), get_elem?-ge xs i (omega arith))
  ]
