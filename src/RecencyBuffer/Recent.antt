-- ===== src/RecencyBuffer/Recent.antt =====
-- The buffer of the last numbers against the list of all that came, the last one first.
use cs.Base.{
  ℕ, zero, suc, ◌+◌, ◌-◌, ◌%◌, ◌<◌, ◌≡◌, refl, ap, ◌∙◌, arith, some, List, [], ◌∷◌, length,
  length-set, get_elem?, set, get_elem?-set_self, get_elem?-set_ne, get_elem?-replicate, replicate,
  neg32, add32,
}
use cs.RecencyBuffer.{RecBuffer, place_back, rec_buffer_init, rec_buffer_add, rec_buffer_get}

-- The entry that came `i` entries before the last one, -1 before the first.
abbrev pub came : List ℕ → ℕ → ℕ
came [] i = neg32 1
came (x ∷ xs) zero = x
came (x ∷ xs) (suc i) = came xs i

pub record Remembers (rb : RecBuffer) (xs : List ℕ) : Type 0 where
  pub storage : length rb.buf ≡ 20
  pub in_range : rb.start < 20
  pub entries : (i : ℕ) → i < 20 → get_elem? rb.buf (place_back rb.start i) ≡ some (came xs i)

-- The two cases of the code, as one.
place_back_lem : (start i : ℕ) → start < 20 → i < 20 → place_back start i ≡ (start + 19 - i) % 20
place_back_lem start i b bi = ground arith

next_start : (start : ℕ) → start < 20 → add32 start 1 % 20 ≡ (start + 1) % 20
next_start start b = omega arith

init-Remembers : (rb : RecBuffer) → Remembers (rec_buffer_init rb) []
unfolding rec_buffer_init
init-Remembers rb = record {
  storage = refl;
  in_range = omega arith;
  entries = λ i b.
      ap (get_elem? (replicate 20 (neg32 1))) (place_back_lem 0 i (omega arith) b)
      ∙ get_elem?-replicate 20 ((0 + 19 - i) % 20) (neg32 1) (omega arith);
}

entry :
    (rb : RecBuffer) (xs : List ℕ) (x : ℕ)
    → Remembers rb xs
    → (i : ℕ) → i < 20
    → get_elem? (set rb.buf rb.start x) (place_back (add32 rb.start 1 % 20) i)
      ≡ some (came (x ∷ xs) i)
entry rb xs x r zero b =
    let s = next_start rb.start r.in_range in
    let p = place_back_lem (add32 rb.start 1 % 20) 0 (omega arith) b in
    let c = r.in_range in
    ap (get_elem? (set rb.buf rb.start x)) (p ∙ omega (arith, s))
    ∙ get_elem?-set_self rb.buf rb.start x (omega (arith, r.storage))
entry rb xs x r (suc i) b =
    let c = r.in_range in
    let s = next_start rb.start c in
    let old = place_back_lem rb.start i c (omega arith) in
    let p = place_back_lem (add32 rb.start 1 % 20) (suc i) (omega arith) b in
    let same : place_back (add32 rb.start 1 % 20) (suc i) ≡ place_back rb.start i =
      omega (arith, s, old, p) in
    ap (get_elem? (set rb.buf rb.start x)) same
    ∙ get_elem?-set_ne rb.buf rb.start (place_back rb.start i) x (omega (arith, old))
    ∙ r.entries i (omega arith)

-- Add.
pub rec_buffer_add-Remembers :
    (rb : RecBuffer) (xs : List ℕ) (x : ℕ)
    → Remembers rb xs
    → Remembers (rec_buffer_add rb x) (x ∷ xs)
unfolding rec_buffer_add
rec_buffer_add-Remembers rb xs x r =
    let s = next_start rb.start r.in_range in
    record {
      storage = length-set rb.buf rb.start x ∙ r.storage;
      in_range = omega arith;
      entries = λ i b. entry rb xs x r i b ∙ refl;
    }

-- Get.
pub rec_buffer_get-Remembers :
    (rb : RecBuffer) (xs : List ℕ) (i : ℕ)
    → Remembers rb xs
    → i < 20
    → rec_buffer_get rb i ≡ some (came xs i)
unfolding rec_buffer_get
rec_buffer_get-Remembers rb xs i r b = r.entries i b

-- A buffer to which the numbers of a list have come, the first of the list last.
abbrev pub with_all : RecBuffer → List ℕ → RecBuffer
with_all rb [] = rec_buffer_init rb
with_all rb (x ∷ xs) = rec_buffer_add (with_all rb xs) x

with_all-Remembers : (rb : RecBuffer) (xs : List ℕ) → Remembers (with_all rb xs) xs
with_all-Remembers rb [] = init-Remembers rb
with_all-Remembers rb (x ∷ xs) =
    rec_buffer_add-Remembers (with_all rb xs) xs x (with_all-Remembers rb xs)

-- In a buffer that was initialised and to which any numbers have been added, entry `i`, for `i`
-- below 20, is the number that came `i` numbers before the last one, or -1 when fewer came.
pub rec_buffer_get_lem :
    (rb : RecBuffer) (xs : List ℕ) (i : ℕ)
    → i < 20
    → rec_buffer_get (with_all rb xs) i ≡ some (came xs i)
rec_buffer_get_lem rb xs i b =
    rec_buffer_get-Remembers (with_all rb xs) xs i (with_all-Remembers rb xs) b
