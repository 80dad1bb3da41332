-- ===== src/RecencyBuffer.antt =====
-- src/lib/recency_buffer.c: the last numbers that came.
pub mod Recent
mod Tests
use cs.Base.{
  ℕ, ◌+◌, ◌%◌, Option, List, [], ◌∷◌, replicate, set, get_elem?, if◌then◌else◌, ltb, add32, sub32,
  neg32, is_negative,
}

abbrev pub rec_buf_size : ℕ
rec_buf_size = 20

-- `start` and `num` are `int`, and so are the entries.
pub record RecBuffer : Type 0 where
  pub buf : List ℕ
  pub start : ℕ
  pub num : ℕ

unfoldable pub rec_buffer_init : RecBuffer → RecBuffer
rec_buffer_init rb = record { buf = replicate rec_buf_size (neg32 1); start = 0; num = 0 }

unfoldable pub rec_buffer_add : RecBuffer → ℕ → RecBuffer
rec_buffer_add rb i = record {
  buf = set rb.buf rb.start i;
  start = add32 rb.start 1 % rec_buf_size;
  num = if ltb rec_buf_size (add32 rb.num 1) then rb.num else add32 rb.num 1;
}

-- The place of the entry that came `i` entries before the last; `j` is negative when it is in the part before
-- the wrap. A read outside the array is `none`.
abbrev pub place_back : ℕ → ℕ → ℕ
place_back start i =
    let j = sub32 (sub32 start 1) i in
    if is_negative j then add32 rec_buf_size j else j % rec_buf_size

unfoldable pub rec_buffer_get : RecBuffer → ℕ → Option ℕ
rec_buffer_get rb i = get_elem? rb.buf (place_back rb.start i)
