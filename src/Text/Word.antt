-- ===== src/Text/Word.antt =====
-- `parse_str` of a text that has a word.
use cs.Base.{
  ℕ, zero, suc, ◌+◌, ◌^◌, ◌<◌, ◌≤◌, ◌≡◌, refl, ap, ◌∙◌, arith, Bool, true, false, not, ◌&&◌, ◌||◌,
  some, List, [], ◌∷◌, ◌++◌, length, ◌==◌, add32, int_lt,
}
use cs.Text.{copy_word, skip_spaces, parse_str}

-- No character is a space or 0.
abbrev pub is_word : List ℕ → Bool
is_word [] = true
is_word (c ∷ cs) = not (c == 32 || c == 0) && is_word cs

abbrev pub spaces : ℕ → List ℕ
spaces zero = []
spaces (suc n) = 32 ∷ spaces n

skip_spaces_lem :
    (n c : ℕ) (s : List ℕ)
    → n < 2 ^ 31
    → (c == 32) ≡ false
    → skip_spaces (spaces n ++ (c ∷ s)) ≡ some (n, c ∷ s)
unfolding skip_spaces
skip_spaces_lem zero c s b e = rw e refl
skip_spaces_lem (suc n) c s b e =
    let up : add32 n 1 ≡ suc n = omega arith in rw (skip_spaces_lem n c s (omega arith) e, up) refl

copy_end :
    (e len bl : ℕ) (rest : List ℕ)
    → (e == 32 || e == 0) ≡ true
    → copy_word (e ∷ rest) len bl ≡ some (some 1, 0 ∷ [])
unfolding copy_word
copy_end e len bl rest h = rw h refl

copy_step :
    (c len bl n : ℕ) (s w : List ℕ)
    → (c == 32 || c == 0) ≡ false
    → int_lt bl (add32 len 1) ≡ false
    → copy_word s (add32 len 1) bl ≡ some (some n, w)
    → copy_word (c ∷ s) len bl ≡ some (some (add32 n 1), c ∷ w)
unfolding copy_word
copy_step c len bl n s w h l run = rw (h, l, run) refl

copy_word_lem :
    (w : List ℕ) (e len bl : ℕ) (rest : List ℕ)
    → is_word w ≡ true
    → (e == 32 || e == 0) ≡ true
    → len + length w ≤ bl
    → bl < 2 ^ 31
    → copy_word (w ++ (e ∷ rest)) len bl ≡ some (some (suc (length w)), w ++ (0 ∷ []))
copy_word_lem [] e len bl rest h h' l b = copy_end e len bl rest h'
copy_word_lem (c ∷ w) e len bl rest h h' l b =
    let plain : (c == 32 || c == 0) ≡ false = ground arith in
    let others : is_word w ≡ true = ground arith in
    let fits : int_lt bl (add32 len 1) ≡ false = ground arith in
    let next : add32 len 1 ≡ suc len = omega arith in
    let up : add32 (suc (length w)) 1 ≡ suc (suc (length w)) = omega arith in
    let ih = copy_word_lem w e (suc len) bl rest others h' (omega arith) b in
    copy_step c len bl (suc (length w)) (w ++ (e ∷ rest)) (w ++ (0 ∷ [])) plain fits
      (ap (λ k. copy_word (w ++ (e ∷ rest)) k bl) next ∙ ih)
    ∙ ap (λ n. some (some n, c ∷ (w ++ (0 ∷ [])))) up

-- A word of `c` and `w`, with `n` spaces before it and a space or 0 behind it, that is no longer
-- than `buf_len`: `parse_str` returns the characters up to the one behind the word, with it, and
-- writes the word and 0, one character more than `buf_len` when the word is as long as that.
pub parse_str_lem :
    (n c e bl : ℕ) (w rest : List ℕ)
    → n < 2 ^ 31
    → is_word (c ∷ w) ≡ true
    → (e == 32 || e == 0) ≡ true
    → length (c ∷ w) ≤ bl
    → bl < 2 ^ 31
    → parse_str (spaces n ++ (c ∷ (w ++ (e ∷ rest)))) bl
      ≡ some (n + length (c ∷ w) + 1, c ∷ (w ++ (0 ∷ [])))
unfolding parse_str
parse_str_lem n c e bl w rest b h h' l b' =
    let plain : (c == 32) ≡ false = ground arith in
    let sum : add32 n (suc (length (c ∷ w))) ≡ n + length (c ∷ w) + 1 = omega arith in
    rw
      (
        skip_spaces_lem n c (w ++ (e ∷ rest)) b plain,
        copy_word_lem (c ∷ w) e 0 bl rest h h' (omega arith) b',
      )
      (ap (λ k. some (k, c ∷ (w ++ (0 ∷ [])))) sum)
