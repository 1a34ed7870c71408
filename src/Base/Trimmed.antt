-- ===== src/Base/Trimmed.antt =====
-- Trimming a text twice is trimming it once.
use Prim.Native.Char.{Char}
use Prim.Native.String.{String, [], ◌∷◌}
use mathlib.Core.Path.{◌≡◌, refl, ap, ◌∙◌}
use mathlib.Core.Logic.{inl, inr}
use mathlib.Core.Bool.{false}
use cairnline.Base.Tests.{Bool-cases}
use cairnline.Base.Trim.{is_space, trim_left, keep_right, trim_right, trim_space}

-- No space comes first.
abbrev IsFlush : String → Type 0
IsFlush [] = Unit
IsFlush (c ∷ s) = is_space c ≡ false

trim_left-IsFlush : (s : String) → IsFlush (trim_left s)
unfolding trim_left
trim_left-IsFlush [] = tt
trim_left-IsFlush (c ∷ s) = elim (Bool-cases (is_space c)) [
  | inl space ↦ rw space (trim_left-IsFlush s)
  | inr ink ↦ rw ink ink
]

trim_left-flush : (s : String) → IsFlush s → trim_left s ≡ s
unfolding trim_left
trim_left-flush [] h = refl
trim_left-flush (c ∷ s) h = rw h refl

keep_right-IsFlush : (c : Char) (s : String) → is_space c ≡ false → IsFlush (keep_right c s)
unfolding keep_right
keep_right-IsFlush c [] h = rw h h
keep_right-IsFlush c (d ∷ s) h = h

trim_right-IsFlush : (s : String) → IsFlush s → IsFlush (trim_right s)
unfolding trim_right
trim_right-IsFlush [] h = tt
trim_right-IsFlush (c ∷ s) h = keep_right-IsFlush c (trim_right s) h

trim_right-keep_right :
    (c : Char) (s : String) → trim_right s ≡ s → trim_right (keep_right c s) ≡ keep_right c s
unfolding trim_right keep_right
trim_right-keep_right c [] h = elim (Bool-cases (is_space c)) [
  | inl space ↦ rw space refl
  | inr ink ↦ rw ink (rw ink refl)
]
trim_right-keep_right c (d ∷ s) h = ap (keep_right c) h

trim_right_idem : (s : String) → trim_right (trim_right s) ≡ trim_right s
unfolding trim_right
trim_right_idem [] = refl
trim_right_idem (c ∷ s) = trim_right-keep_right c (trim_right s) (trim_right_idem s)

pub trim_space_idem : (s : String) → trim_space (trim_space s) ≡ trim_space s
unfolding trim_space
trim_space_idem s =
    ap trim_right (
      trim_left-flush (trim_right (trim_left s))
        (trim_right-IsFlush (trim_left s) (trim_left-IsFlush s)))
    ∙ trim_right_idem (trim_left s)
