-- ===== src/Base/Text.antt =====
-- Texts that the code puts together: numbers, and what is left when blanks are dropped.
use Prim.Native.Nat.{ℕ, suc, zero, ◌<◌, ◌≤◌, ◌/◌, ◌%◌}
use Prim.Native.Char.{Char}
use Prim.Native.String.{String, [], ◌∷◌, ◌++◌}
use mathlib.Core.Path.{◌≡◌, refl}
use mathlib.Core.Bool.{Bool, false, not, ◌||◌}
use mathlib.Core.Logic.{inl, inr}
use native.Mathlib.Omega.{arith}
use text.Mathlib.TextEquality.{eq_iff}
use text.Mathlib.TextLemmas.{nil-append, cons-append, cons-ne-nil}
use cairnline.Base.Tests.{if◌then◌else◌, ◌==◌, ltb, string_eq, nat_eq, Bool-cases}
use cairnline.Base.Trim.{is_space, trim_left, keep_right, trim_right, trim_space, is_blank}

-- The letter at place `n`.
abbrev pub letter : String → ℕ → String
letter [] n = []
letter (c ∷ s) zero = c ∷ []
letter (c ∷ s) (suc n) = letter s n

-- The digits of `n` before `out`; each round divides by ten, so that `n + 1` rounds are enough.
unfoldable pub digits : ℕ → ℕ → String → String
digits zero n out = out
digits (suc rounds) n out =
    let longer = letter "0123456789" (n % 10) ++ out in
    let more = digits rounds (n / 10) longer in if ltb n 10 then longer else more

-- Any two numbers of rounds above `n` give the same digits.
digits_enough : (j k n : ℕ) (out : String) → n < j → n < k → digits j n out ≡ digits k n out
unfolding digits
digits_enough zero k n out h l = absurd (omega arith)
digits_enough (suc j) zero n out h l = absurd (omega arith)
digits_enough (suc j) (suc k) n out h l = elim (Bool-cases (ltb n 10)) [
  | inl last ↦ rw last refl
  | inr more ↦
      let large : 10 ≤ n = ground arith in
      rw more (digits_enough j k (n / 10) _ (omega arith) (omega arith))
]

-- `%d`
unfoldable pub decimal : ℕ → String
unfolding digits
decimal n = digits (suc n) n []

-- A noun's plural: "s" after it, or "ies" in place of a "y" at its end.
unfoldable pub pluralize : String → String
pluralize [] = "s"
pluralize (c ∷ s) = let rest = c ∷ pluralize s in if (c ∷ s) == "y" then "ies" else rest

-- `firstNonEmpty` of two texts
abbrev pub first_non_empty : String → String → String
first_non_empty s t = if s == "" then t else s

-- A text with something to read.
abbrev pub has_ink : String → Bool
has_ink [] = false
has_ink (c ∷ s) = not (is_space c) || has_ink s

ten : decimal 1072 ≡ "1072"
unfolding decimal
ten = refl

nouns : (pluralize "memory" ≡ "memories") × (pluralize "role" ≡ "roles")
unfolding pluralize
nouns = (refl, refl)

pub has_ink-append : (s t : String) → has_ink (s ++ t) ≡ (has_ink s || has_ink t)
has_ink-append [] t = rw (nil-append t) refl
has_ink-append (c ∷ s) t = rw (cons-append c s t, has_ink-append s t) (ground arith)

cons-blank : (c : Char) (s : String) → ((c ∷ s) == "") ≡ false
cons-blank c s = elim (Bool-cases ((c ∷ s) == "")) [
  | inl same ↦ absurd (cons-ne-nil c s ((eq_iff (c ∷ s) "").0 same))
  | inr apart ↦ apart
]

keep_right-blank :
    (c : Char) (s : String) → (not (is_space c) || not (s == "")) ≡ not (keep_right c s == "")
unfolding keep_right
keep_right-blank c [] = elim (Bool-cases (is_space c)) [
  | inl space ↦ rw space refl
  | inr ink ↦ rw ink (rw (cons-blank c "") refl)
]
keep_right-blank c (d ∷ s) = rw (cons-blank d s, cons-blank c (d ∷ s)) (ground arith)

trim_right-has_ink : (s : String) → has_ink s ≡ not (trim_right s == "")
unfolding trim_right keep_right
trim_right-has_ink [] = refl
trim_right-has_ink (c ∷ s) = rw (trim_right-has_ink s) (keep_right-blank c (trim_right s))

trim_left-has_ink : (s : String) → has_ink (trim_left s) ≡ has_ink s
unfolding trim_left
trim_left-has_ink [] = refl
trim_left-has_ink (c ∷ s) = ground (arith, trim_left-has_ink s)

pub is_blank-has_ink : (s : String) → is_blank s ≡ not (has_ink s)
unfolding trim_space
is_blank-has_ink s = ground (arith, trim_left-has_ink s, trim_right-has_ink (trim_left s))
