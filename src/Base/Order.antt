-- ===== src/Base/Order.antt =====
-- Comparators that give a sign, as `slices.SortFunc` and `time.Time.Compare` take and give them.
use Prim.Native.Nat.{compare, Ordering}
use Prim.Native.Char.{code}
use Prim.Native.String.{String, [], ◌∷◌}
use mathlib.Core.Path.{◌≡◌, refl}
use mathlib.Core.Logic.{◌≢◌}
use mathlib.Core.Bool.{Bool, true, false}
use native.Mathlib.Omega.{arith}

-- A negative, a zero and a positive result.
abbrev pub swap : Ordering → Ordering
swap Ordering.lt = Ordering.gt
swap Ordering.eq = Ordering.eq
swap Ordering.gt = Ordering.lt

-- `if cmp := a; cmp != 0 { return cmp }; return b`
abbrev pub then_by : Ordering → Ordering → Ordering
then_by Ordering.eq o = o
then_by o _ = o

abbrev pub is_lt : Ordering → Bool
is_lt Ordering.lt = true
is_lt _ = false

-- `a < b`, `a > b` on texts: Go compares bytes of UTF-8, whose order is that of the code points.
unfoldable pub compare_string : String → String → Ordering
compare_string [] [] = Ordering.eq
compare_string [] (d ∷ t) = Ordering.lt
compare_string (c ∷ s) [] = Ordering.gt
compare_string (c ∷ s) (d ∷ t) = then_by (compare (code c) (code d)) (compare_string s t)

pub record IsComparator {ℓ} {A : Type ℓ} (cmp : A → A → Ordering) : Type ℓ where
  pub flips : (a b : A) → cmp b a ≡ swap (cmp a b)
  pub trans : (a b c : A) → cmp a b ≢ Ordering.gt → cmp b c ≢ Ordering.gt → cmp a c ≢ Ordering.gt

pub compare-IsComparator : IsComparator compare
compare-IsComparator = record { flips = λ a b. ground arith; trans = λ a b c h k e. ground arith }

module _ {ℓ κ} {A : Type ℓ} {B : Type κ} (f : A → B) (cmp : B → B → Ordering) where
  pub key-IsComparator : IsComparator cmp → IsComparator (λ (a b : A). cmp (f a) (f b))
  key-IsComparator c = record {
    flips = λ a b. c.flips (f a) (f b);
    trans = λ x y z. c.trans (f x) (f y) (f z);
  }

  -- The same key, the greatest first.
  pub descending-IsComparator : IsComparator cmp → IsComparator (λ (a b : A). cmp (f b) (f a))
  descending-IsComparator c = record {
    flips = λ a b. c.flips (f b) (f a);
    trans = λ x y z h k. c.trans (f z) (f y) (f x) k h;
  }

module _ {ℓ} {A : Type ℓ} (first second : A → A → Ordering) where
  pub then_by-IsComparator :
      IsComparator first
      → IsComparator second
      → IsComparator (λ (a b : A). then_by (first a b) (second a b))
  then_by-IsComparator c d = record {
    flips = λ a b. ground (arith, c.flips a b, d.flips a b);
    trans = λ x y z h k e. ground (
      arith,
      c.trans x y z,
      c.trans y z x,
      c.trans z x y,
      c.flips x y,
      c.flips y z,
      c.flips x z,
      d.trans x y z,
    );
  }

compare_string-flips : (s t : String) → compare_string t s ≡ swap (compare_string s t)
unfolding compare_string
compare_string-flips [] [] = refl
compare_string-flips [] (d ∷ t) = refl
compare_string-flips (c ∷ s) [] = refl
compare_string-flips (c ∷ s) (d ∷ t) = ground (arith, compare_string-flips s t)

compare_string_trans :
    (r s t : String)
    → compare_string r s ≢ Ordering.gt
    → compare_string s t ≢ Ordering.gt
    → compare_string r t ≢ Ordering.gt
unfolding compare_string
compare_string_trans [] s [] h k e = ground arith
compare_string_trans [] s (d ∷ t) h k e = ground arith
compare_string_trans (b ∷ r) [] t h k e = ground arith
compare_string_trans (b ∷ r) (c ∷ s) [] h k e = ground arith
compare_string_trans (b ∷ r) (c ∷ s) (d ∷ t) h k e = ground (arith, compare_string_trans r s t)

pub compare_string-IsComparator : IsComparator compare_string
compare_string-IsComparator = record { flips = compare_string-flips; trans = compare_string_trans }
