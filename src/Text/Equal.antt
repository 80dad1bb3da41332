-- ===== src/Text/Equal.antt =====
-- `streq` of two texts.
use cs.Base.{
  ℕ, ◌≡◌, ◌↔◌, refl, sym, ap, ◌∙◌, arith, Bool, true, false, not, ◌&&◌, some, List, [], ◌∷◌, ◌++◌,
  ◌==◌, eq→==,
}
use cs.Text.{streq}

-- No character is 0.
abbrev pub is_text : List ℕ → Bool
is_text [] = true
is_text (c ∷ cs) = not (c == 0) && is_text cs

same : List ℕ → List ℕ → Bool
same [] [] = true
same [] (d ∷ b) = false
same (c ∷ a) [] = false
same (c ∷ a) (d ∷ b) = c == d && same a b

same_self : (a : List ℕ) → same a a ≡ true
unfolding same
same_self [] = refl
same_self (c ∷ a) = rw (eq→== c c refl, same_self a) refl

same-eq : (a b : List ℕ) → same a b ≡ true → a ≡ b
unfolding same
same-eq [] [] h = refl
same-eq [] (d ∷ b) h = ground arith
same-eq (c ∷ a) [] h = ground arith
same-eq (c ∷ a) (d ∷ b) h =
    let e : c ≡ d = ground arith in
    let t : same a b ≡ true = ground arith in ap (λ x. x ∷ a) e ∙ ap (λ r. d ∷ r) (same-eq a b t)

streq_run :
    (a b rest rest' : List ℕ)
    → is_text a ≡ true
    → is_text b ≡ true
    → streq (a ++ (0 ∷ rest)) (b ++ (0 ∷ rest')) ≡ some (same a b)
unfolding streq same
streq_run [] [] rest rest' h h' = refl
streq_run [] (d ∷ b) rest rest' h h' = ground arith
streq_run (c ∷ a) [] rest rest' h h' = ground arith
streq_run (c ∷ a) (d ∷ b) rest rest' h h' = ground (arith, streq_run a b rest rest')

-- On two texts that end with 0, whatever comes behind, `streq` ends, and it says that they are
-- equal exactly when they are.
pub streq_lem :
    (a b rest rest' : List ℕ)
    → is_text a ≡ true
    → is_text b ≡ true
    → (r : Bool) × (streq (a ++ (0 ∷ rest)) (b ++ (0 ∷ rest')) ≡ some r) × ((r ≡ true) ↔ (a ≡ b))
streq_lem a b rest rest' h h' =
    (same a b, streq_run a b rest rest' h h', (same-eq a b, λ e. ap (same a) (sym e) ∙ same_self a))
