-- ===== src/Text.antt =====
-- src/lib/string.c and src/lib/parse.c: texts that end with the character 0. A pointer to a text is the list of the
-- characters from there on; `none` is a read behind them.
pub mod Equal
pub mod Word
mod Tests
use cs.Base.{
  ℕ, zero, suc, ◌+◌, ◌*◌, ◌-◌, ◌%◌, ◌^◌, Bool, true, false, not, ◌&&◌, ◌||◌, Option, none, some,
  List, [], ◌∷◌, if◌then◌else◌, ltb, leb, ◌==◌, add32, neg32, int_lt, is_negative, ◌>>=◌,
}

-- ' '
abbrev pub space : ℕ
space = 32

unfoldable pub strlen : List ℕ → Option ℕ
strlen [] = none
strlen (c ∷ s) = if c == 0 then some 0 else (strlen s >>= λ n. some (add32 n 1))

unfoldable pub streq : List ℕ → List ℕ → Option Bool
streq [] t = none
streq (c ∷ s) [] = none
streq (c ∷ s) (d ∷ t) =
    let rest = streq s t in
    if not (c == 0) && (not (d == 0) && c == d) then rest else some (c == d && c == 0)

unfoldable pub pow_loop : ℕ → ℕ → ℕ → ℕ
pow_loop x zero r = r
pow_loop x (suc y) r = pow_loop x y (r * x % 2 ^ 32)

unfoldable pub mypow : ℕ → ℕ → ℕ
unfolding pow_loop
mypow x y = if is_negative y then 1 else pow_loop x y 1

-- The loop that skips spaces: how many, and the text behind them.
unfoldable pub skip_spaces : List ℕ → Option (ℕ × List ℕ)
skip_spaces [] = none
skip_spaces (c ∷ s) =
    let rest = skip_spaces s in
    if c == space then (rest >>= λ p. some (add32 p.0 1, p.1)) else some (0, c ∷ s)

-- What the loop of `parse_str` reads, unless it gives up, and what it writes.
unfoldable pub copy_word : List ℕ → ℕ → ℕ → Option (Option ℕ × List ℕ)
copy_word [] len buf_len = none
copy_word (c ∷ s) len buf_len =
    let rest = copy_word s (add32 len 1) buf_len in
    if c == space || c == 0
    then some (some 1, 0 ∷ [])
    else if int_lt buf_len (add32 len 1)
    then some (none, c ∷ [])
    else (rest >>= λ r. some ((r.0 >>= λ n. some (add32 n 1)), c ∷ r.1))

abbrev pub offset_of : ℕ → Option ℕ → ℕ
offset_of n none = 0
offset_of n (some m) = add32 n m

-- The result, and what is written to the buffer.
unfoldable pub parse_str : List ℕ → ℕ → Option (ℕ × List ℕ)
unfolding skip_spaces copy_word
parse_str str buf_len =
    skip_spaces str >>= λ p. copy_word p.1 0 buf_len >>= λ r. some (offset_of p.0 r.0, r.1)

abbrev pub is_letter : ℕ → Bool
is_letter c = (leb 65 c && leb c 90) || (leb 97 c && leb c 122)

abbrev pub first_of : ℕ × List ℕ → Option (ℕ × ℕ)
first_of (n, []) = none
first_of (n, c ∷ s) = some ((if is_letter c then add32 n 2 else 0), c)

-- The result, and the character that is read.
unfoldable pub parse_c : List ℕ → Option (ℕ × ℕ)
unfolding skip_spaces
parse_c str = skip_spaces str >>= first_of

abbrev pub is_digit : ℕ → Bool
is_digit c = leb c 57 && leb 48 c

-- The characters of a number, with a '-' only before a digit.
unfoldable pub take_number : List ℕ → Option (List ℕ)
take_number [] = none
take_number (c ∷ []) = if c == 0 || (not (is_digit c) && not (c == 45)) then some [] else none
take_number (c ∷ d ∷ s) =
    let rest = take_number (d ∷ s) in
    if not (c == 0) && (is_digit c || (c == 45 && is_digit d))
    then (rest >>= λ cs. some (c ∷ cs))
    else some []

-- The loop from the last character back: its place is counted in `k`.
unfoldable pub sum_back : List ℕ → ℕ → ℕ × ℕ
unfolding mypow
sum_back [] i = (i, 0)
sum_back (c ∷ cs) i =
    let (r, k) = sum_back cs i in
    if c == 45
    then (r * (2 ^ 32 - 1) % 2 ^ 32, suc k)
    else ((r + (c - 48) * mypow 10 k) % 2 ^ 32, suc k)

abbrev pub number_of : ℕ → List ℕ → ℕ × ℕ
number_of n [] = (0, 0)
number_of n (c ∷ cs) = (add32 n (add32 (sum_back (c ∷ cs) 0).1 1), (sum_back (c ∷ cs) 0).0)

-- The result, and the number that is read.
unfoldable pub parse_ui32 : List ℕ → Option (ℕ × ℕ)
unfolding skip_spaces take_number sum_back
parse_ui32 str = skip_spaces str >>= λ p. take_number p.1 >>= λ cs. some (number_of p.0 cs)
