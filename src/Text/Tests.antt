-- ===== src/Text/Tests.antt =====
-- Texts that are compared, and texts with a word or a number.
use cs.Base.{ℕ, ◌≡◌, ◌↔◌, refl, arith, Bool, true, some, List, [], ◌∷◌, ◌++◌}
use cs.Text.{streq, strlen, mypow, parse_str, parse_c, parse_ui32}
use cs.Text.Equal.{streq_lem}
use cs.Text.Word.{parse_str_lem}

abbrev ab : List ℕ
ab = 97 ∷ 98 ∷ []

abbrev ac : List ℕ
ac = 97 ∷ 99 ∷ []

streq_lem_example :
    (r : Bool) × (streq (ab ++ (0 ∷ [])) (ac ++ (0 ∷ 5 ∷ [])) ≡ some r) × ((r ≡ true) ↔ (ab ≡ ac))
streq_lem_example = streq_lem ab ac [] (5 ∷ []) refl refl

-- A word of three characters into a buffer of three.
parse_str_lem_example :
    parse_str (32 ∷ 32 ∷ 67 ∷ 49 ∷ 51 ∷ 32 ∷ 0 ∷ []) 3 ≡ some (6, 67 ∷ 49 ∷ 51 ∷ 0 ∷ [])
parse_str_lem_example =
    parse_str_lem 2 67 32 3 (49 ∷ 51 ∷ []) (0 ∷ []) (omega arith) refl refl (omega arith)
      (omega arith)

-- " -120 7"
parses_negative : parse_ui32 (32 ∷ 45 ∷ 49 ∷ 50 ∷ 48 ∷ 32 ∷ 55 ∷ 0 ∷ []) ≡ some (6, 4294967176)
unfolding parse_ui32
parses_negative = refl

parses_nothing : parse_ui32 (32 ∷ 45 ∷ 32 ∷ 0 ∷ []) ≡ some (0, 0)
unfolding parse_ui32
parses_nothing = refl

parses_letter : parse_c (32 ∷ 83 ∷ 0 ∷ []) ≡ some (3, 83)
unfolding parse_c
parses_letter = refl

too_long : parse_str (67 ∷ 49 ∷ 51 ∷ 0 ∷ []) 2 ≡ some (0, 67 ∷ 49 ∷ 51 ∷ [])
unfolding parse_str
too_long = refl

three_long : strlen (67 ∷ 49 ∷ 51 ∷ 0 ∷ []) ≡ some 3
unfolding strlen
three_long = refl

power : mypow 10 9 ≡ 1000000000
unfolding mypow
power = refl
