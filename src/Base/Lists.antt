-- ===== src/Base/Lists.antt =====
-- Slices: their length, loops that count or keep, and what a loop keeps.
use Prim.Native.Nat.{ℕ, zero, suc, ◌+◌, ◌≤◌, ◌<◌, min, Ordering}
use mathlib.Core.Path.{◌≡◌, refl, sym, ap, ◌∙◌}
use mathlib.Core.Logic.{◌↔◌, ◌⊎◌, inl, inr}
use mathlib.Core.Bool.{Bool, true, false, true≢false, ◌||◌}
use mathlib.Core.List.{List, [], ◌∷◌, ◌++◌}
use native.Mathlib.Omega.{arith}
use cairnline.Base.Tests.{ltb, if◌then◌else◌, Bool-cases}
use cairnline.Base.Sorting.{Has, insert, sort}

module _ {ℓ} {A : Type ℓ} where
  -- `len(l)`
  abbrev pub length : List A → ℕ
  length [] = 0
  length (x ∷ xs) = suc (length xs)

  -- `len(l) == 0`
  abbrev pub is_nil : List A → Bool
  is_nil [] = true
  is_nil (x ∷ xs) = false

  -- `l[:n]` where `n` is no more than the length
  unfoldable pub take : ℕ → List A → List A
  take zero xs = []
  take (suc n) [] = []
  take (suc n) (x ∷ xs) = x ∷ take n xs

  pub length-take : (n : ℕ) (xs : List A) → length (take n xs) ≡ min n (length xs)
  unfolding take
  length-take zero xs = omega arith
  length-take (suc n) [] = omega arith
  length-take (suc n) (x ∷ xs) = omega (arith, length-take n xs)

  -- `for _, x := range l { if test(x) { out = append(out, x) } }`
  unfoldable pub filter : (A → Bool) → List A → List A
  filter test [] = []
  filter test (x ∷ xs) = let rest = filter test xs in if test x then x ∷ rest else rest

  -- `for _, x := range l { if test(x) { n++ } }`
  unfoldable pub count : (A → Bool) → List A → ℕ
  count test [] = 0
  count test (x ∷ xs) = (if test x then 1 else 0) + count test xs

  -- `for _, x := range l { if test(x) { return true } }; return false`
  unfoldable pub any : (A → Bool) → List A → Bool
  any test [] = false
  any test (x ∷ xs) = test x || any test xs

  length-filter : (test : A → Bool) (xs : List A) → length (filter test xs) ≡ count test xs
  unfolding filter count
  length-filter test [] = refl
  length-filter test (x ∷ xs) = ground (arith, length-filter test xs)

  count-le-length : (test : A → Bool) (xs : List A) → count test xs ≤ length xs
  unfolding count
  count-le-length test [] = omega arith
  count-le-length test (x ∷ xs) = ground (arith, count-le-length test xs)

module _ {ℓ} {A : Type ℓ} (cmp : A → A → Ordering) where
  length-insert : (x : A) (xs : List A) → length (insert cmp x xs) ≡ suc (length xs)
  unfolding insert
  length-insert x [] = refl
  length-insert x (y ∷ ys) = ground (arith, length-insert x ys)

  pub length-sort : (xs : List A) → length (sort cmp xs) ≡ length xs
  unfolding sort
  length-sort [] = refl
  length-sort (x ∷ xs) = length-insert x (sort cmp xs) ∙ ap suc (length-sort xs)

  count-insert :
      (test : A → Bool) (x : A) (xs : List A) → count test (insert cmp x xs) ≡ count test (x ∷ xs)
  unfolding insert count
  count-insert test x [] = refl
  count-insert test x (y ∷ ys) = ground (arith, count-insert test x ys)

  pub count-sort : (test : A → Bool) (xs : List A) → count test (sort cmp xs) ≡ count test xs
  unfolding sort count
  count-sort test [] = refl
  count-sort test (x ∷ xs) = ground (arith, count-insert test x (sort cmp xs), count-sort test xs)

-- `for _, x := range l { out = append(out, f(x)) }`
unfoldable pub map {ℓ κ} : {A : Type ℓ} {B : Type κ} → (A → B) → List A → List B
map f [] = []
map f (x ∷ xs) = f x ∷ map f xs

-- `for _, x := range l { out = append(out, f(x)...) }`
unfoldable flat_map {ℓ κ} : {A : Type ℓ} {B : Type κ} → (A → List B) → List A → List B
flat_map f [] = []
flat_map f (x ∷ xs) = f x ++ flat_map f xs

module _ {A : Type 0} where
  pub filter-Has :
      (test : A → Bool) (a : A) (xs : List A)
      → Has a (filter test xs) ↔ (Has a xs × (test a ≡ true))
  unfolding filter
  filter-Has test a [] = ground arith
  filter-Has test a (x ∷ xs) = ground (arith, filter-Has test a xs, λ (same : x ≡ a). ap test same)

  pub append-Has : (a : A) (xs ys : List A) → Has a (xs ++ ys) ↔ (Has a xs ⊎ Has a ys)
  append-Has a [] ys = ground arith
  append-Has a (x ∷ xs) ys = ground (arith, append-Has a xs ys)

  -- No item passes the test.
  count-zero :
      (test : A → Bool) (a : A) (xs : List A) → count test xs ≡ 0 → Has a xs → test a ≡ false
  unfolding count
  count-zero test a [] e h = absurd h
  count-zero test a (x ∷ xs) e (inl same) = rw (sym same) (ground arith)
  count-zero test a (x ∷ xs) e (inr later) = count-zero test a xs (ground arith) later

  -- The count is positive just when an item passes the test.
  pub count-Has :
      (test : A → Bool) (xs : List A) → (0 < count test xs) ↔ ((a : A) × Has a xs × (test a ≡ true))
  unfolding count
  count-Has test [] = ground arith
  count-Has test (x ∷ xs) = elim (Bool-cases (test x)) [
    | inl hit ↦ (λ h. (x, inl refl, hit), λ found. ground arith)
    | inr miss ↦ (
      λ h. let found = (count-Has test xs).0 (ground arith) in (found.0, inr found.1, found.2),
      λ (a, h, passes). elim h [
        | inl same ↦ absurd (true≢false (sym passes ∙ sym (ap test same) ∙ miss))
        | inr later ↦
            let more : 0 < count test xs = (count-Has test xs).1 (a, later, passes) in ground arith
      ],
    )
  ]

  count-none :
      (test : A → Bool) (xs : List A) → ((a : A) → Has a xs → test a ≡ false) → count test xs ≡ 0
  unfolding count
  count-none test [] h = refl
  count-none test (x ∷ xs) h =
      ground (arith, h x (inl refl), count-none test xs λ a later. h a (inr later))

  count-zero_iff :
      (test : A → Bool) (xs : List A) → (count test xs ≡ 0) ↔ ((a : A) → Has a xs → test a ≡ false)
  count-zero_iff test xs = (λ e a. count-zero test a xs e, count-none test xs)

  any-none : (test : A → Bool) (xs : List A) → any test xs ≡ ltb 0 (count test xs)
  unfolding any count
  any-none test [] = refl
  any-none test (x ∷ xs) = ground (arith, any-none test xs)

  -- A loop that looks for an item finds none.
  pub any-false_iff :
      (test : A → Bool) (xs : List A)
      → (any test xs ≡ false) ↔ ((a : A) → Has a xs → test a ≡ false)
  any-false_iff test xs = (
    λ e. (count-zero_iff test xs).0 (ground (arith, any-none test xs)),
    λ h. any-none test xs ∙ rw ((count-zero_iff test xs).1 h) refl,
  )

module _ {ℓ} {A : Type ℓ} where
  pub any-append :
      (test : A → Bool) (xs ys : List A) → any test (xs ++ ys) ≡ (any test xs || any test ys)
  unfolding any
  any-append test [] ys = refl
  any-append test (x ∷ xs) ys = ground (arith, any-append test xs ys)

  -- Fewer items, fewer finds.
  pub any-filter :
      (test keep : A → Bool) (xs : List A) → any test xs ≡ false → any test (filter keep xs) ≡ false
  unfolding any filter
  any-filter test keep [] h = refl
  any-filter test keep (x ∷ xs) h = ground (arith, any-filter test keep xs (ground arith))

  pub count-append :
      (test : A → Bool) (xs ys : List A) → count test (xs ++ ys) ≡ count test xs + count test ys
  unfolding count
  count-append test [] ys = omega arith
  count-append test (x ∷ xs) ys = omega (arith, count-append test xs ys)
