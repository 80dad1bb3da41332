-- ===== src/Kernel/Bytes.antt =====
-- Memory as the kernel uses it: bytes at 32-bit addresses, words of four bytes, lowest first, and the
-- copying loop of the message handlers.
use cs.Base.{
  ℕ, zero, suc, ◌+◌, ◌*◌, ◌/◌, ◌%◌, ◌^◌, ◌≤◌, ◌<◌, ◌≡◌, ◌⊎◌, refl, ◌∙◌, arith, eq→==, ne→==,
  if◌then◌else◌, ◌==◌, add32,
}

abbrev pub Memory : Type 0
Memory = ℕ → ℕ

-- `*(char *)a = b`
abbrev pub poke : Memory → ℕ → ℕ → Memory
poke m a b j = if a == j then b else m j

-- `*(int *)a`
unfoldable pub load : Memory → ℕ → ℕ
load m a = m a + 256 * m (add32 a 1) + 65536 * m (add32 a 2) + 16777216 * m (add32 a 3)

-- `*(int *)a = w`
unfoldable pub store : Memory → ℕ → ℕ → Memory
store m a w =
    poke
      (poke (poke (poke m a (w % 256)) (add32 a 1) (w / 256 % 256)) (add32 a 2) (w / 65536 % 256))
      (add32 a 3) (w / 16777216 % 256)

-- `for (i = 0; i < msg_len; ++i) *((char *)(dst+i)) = *((char *)(src+i))`, with `n` rounds to go.
unfoldable pub copy : ℕ → ℕ → Memory → ℕ → ℕ → Memory
copy zero i m dst src = m
copy (suc n) i m dst src = copy n (i + 1) (poke m (add32 dst i) (m (add32 src i))) dst src

-- `n` bytes from `a` do not meet `k` bytes from `b`, and neither stretch passes the end of memory.
pub record Apart (a n b k : ℕ) : Type 0 where
  pub first_fits : a + n ≤ 2 ^ 32
  pub second_fits : b + k ≤ 2 ^ 32
  pub disjoint : (a + n ≤ b) ⊎ (b + k ≤ a)

-- A copy leaves what lies outside its target.
pub copy_outside :
    (n i : ℕ) (m : Memory) (dst src j : ℕ)
    → dst + i + n ≤ 2 ^ 32
    → (j < dst + i) ⊎ (dst + i + n ≤ j)
    → copy n i m dst src j ≡ m j
unfolding copy
copy_outside zero i m dst src j f o = refl
copy_outside (suc n) i m dst src j f o = ground (
  arith,
  copy_outside n (i + 1) (poke m (add32 dst i) (m (add32 src i))) dst src j (omega arith)
      (omega arith),
)

-- A copy between stretches that do not meet moves every byte.
copy_from :
    (n i : ℕ) (m : Memory) (dst src j : ℕ)
    → dst + i + n ≤ 2 ^ 32
    → src + i + n ≤ 2 ^ 32
    → (dst + i + n ≤ src + i) ⊎ (src + i + n ≤ dst + i)
    → j < n
    → copy n i m dst src (dst + i + j) ≡ m (src + i + j)
unfolding copy
copy_from zero i m dst src j f g o l = elim l [ ]
copy_from (suc n) i m dst src zero f g o l =
    let b = m (add32 src i) in
    let d : dst + i + 0 ≡ add32 dst i = omega arith in
    let e : src + i + 0 ≡ add32 src i = omega arith in
    rw (d, e)
      (copy_outside n (i + 1) (poke m (add32 dst i) b) dst src (add32 dst i) (omega arith)
          (omega arith)
        ∙ rw (eq→== (add32 dst i) (add32 dst i) refl))
copy_from (suc n) i m dst src (suc j) f g o l =
    let b = m (add32 src i) in
    let d : dst + i + suc j ≡ dst + (i + 1) + j = omega arith in
    let e : src + i + suc j ≡ src + (i + 1) + j = omega arith in
    rw (d, e)
      (copy_from n (i + 1) (poke m (add32 dst i) b) dst src j (omega arith) (omega arith)
          (omega arith) (omega arith)
        ∙ rw (ne→== (add32 dst i) (src + (i + 1) + j) (omega arith)))

-- The copying loop of `n` rounds moves each of `n` bytes, when source and target are stretches
-- inside memory that do not meet.
pub copy_lem :
    (n : ℕ) (m : Memory) (dst src j : ℕ)
    → Apart dst n src n
    → j < n
    → copy n 0 m dst src (dst + j) ≡ m (src + j)
copy_lem n m dst src j a l =
    let d : dst + j ≡ dst + 0 + j = omega arith in
    let e : src + j ≡ src + 0 + j = omega arith in
    let f = a.first_fits in
    let g = a.second_fits in
    let o = a.disjoint in
    rw (d, e) (copy_from n 0 m dst src j (omega arith) (omega arith) (omega arith) l)

bytes :
    (w : ℕ)
    → w < 2 ^ 32
    → w % 256 + 256 * (w / 256 % 256) + 65536 * (w / 65536 % 256) + 16777216 * (w / 16777216 % 256)
      ≡ w
bytes w l = omega arith

-- A word below 2 ^ 32 that is stored at an address with four bytes of memory left is read back.
pub load-store : (m : Memory) (a w : ℕ) → a + 4 ≤ 2 ^ 32 → w < 2 ^ 32 → load (store m a w) a ≡ w
unfolding load store
load-store m a w f l =
    let e1 : add32 a 1 ≡ a + 1 = omega arith in
    let e2 : add32 a 2 ≡ a + 2 = omega arith in
    let e3 : add32 a 3 ≡ a + 3 = omega arith in
    rw
      (
        e1,
        e2,
        e3,
        ne→== (a + 3) a (omega arith),
        ne→== (a + 2) a (omega arith),
        ne→== (a + 1) a (omega arith),
        ne→== (a + 3) (a + 1) (omega arith),
        ne→== (a + 2) (a + 1) (omega arith),
        ne→== (a + 3) (a + 2) (omega arith),
        eq→== a a refl,
        eq→== (a + 1) (a + 1) refl,
        eq→== (a + 2) (a + 2) refl,
        eq→== (a + 3) (a + 3) refl,
      )
      (bytes w l)

-- A stored word leaves what lies outside its four bytes.
pub store_outside :
    (m : Memory) (a w j : ℕ) → a + 4 ≤ 2 ^ 32 → (j < a) ⊎ (a + 4 ≤ j) → store m a w j ≡ m j
unfolding store
store_outside m a w j f o = rw (
  ne→== (add32 a 3) j (omega arith),
  ne→== (add32 a 2) j (omega arith),
  ne→== (add32 a 1) j (omega arith),
  ne→== a j (omega arith),
)
