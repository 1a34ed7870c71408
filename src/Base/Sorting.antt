-- ===== src/Base/Sorting.antt =====
-- `slices.SortFunc` and `sort.SliceStable`, as an insertion sort that keeps equal items in order.
use Prim.Native.Nat.{Ordering}
use mathlib.Core.Path.{◌≡◌}
use mathlib.Core.Logic.{◌≢◌, ◌⊎◌, inl, inr, ◌↔◌}
use mathlib.Core.List.{List, [], ◌∷◌, Perm}
use mathlib.Core.List.Perm
use native.Mathlib.Omega.{arith}
use cairnline.Base.Tests.{if◌then◌else◌, Bool-cases}
use cairnline.Base.Order.{is_lt, IsComparator}

-- `a` stands in the list.
abbrev pub Has : {A : Type 0} → A → List A → Type 0
Has a [] = ⊥
Has a (x ∷ xs) = (x ≡ a) ⊎ Has a xs

module _ {ℓ} {A : Type ℓ} (cmp : A → A → Ordering) where
  unfoldable pub insert : A → List A → List A
  insert x [] = x ∷ []
  insert x (y ∷ ys) = let rest = insert x ys in if is_lt (cmp y x) then y ∷ rest else x ∷ y ∷ ys

  unfoldable pub sort : List A → List A
  unfolding insert
  sort [] = []
  sort (x ∷ xs) = insert x (sort xs)

  insert-perm : (x : A) (xs : List A) → Perm (insert x xs) (x ∷ xs)
  unfolding insert
  insert-perm x [] = Perm.refl (x ∷ [])
  insert-perm x (y ∷ ys) = elim (Bool-cases (is_lt (cmp y x))) [
    | inl below ↦ rw below (Perm.trans (Perm.cons y (insert-perm x ys)) (Perm.swap x y ys))
    | inr above ↦ rw above (Perm.refl (x ∷ y ∷ ys))
  ]

  -- Sorting moves items, and that is all.
  sort-perm : (xs : List A) → Perm (sort xs) xs
  unfolding sort
  sort-perm [] = Perm.refl []
  sort-perm (x ∷ xs) = Perm.trans (insert-perm x (sort xs)) (Perm.cons x (sort-perm xs))

  -- `x` may stand before each of the items.
  abbrev pub Leads : A → List A → Type 0
  Leads x [] = Unit
  Leads x (y ∷ ys) = (cmp x y ≢ Ordering.gt) × Leads x ys

  -- Each item may stand before all that follow it.
  abbrev pub IsSorted : List A → Type 0
  IsSorted [] = Unit
  IsSorted (x ∷ xs) = Leads x xs × IsSorted xs

  module _ (c : IsComparator cmp) where
    Leads-below : (x y : A) (ys : List A) → cmp x y ≢ Ordering.gt → Leads y ys → Leads x ys
    Leads-below x y [] h l = tt
    Leads-below x y (z ∷ zs) h l = (c.trans x y z h l.0, Leads-below x y zs h l.1)

    Leads-insert :
        (x y : A) (ys : List A) → cmp y x ≢ Ordering.gt → Leads y ys → Leads y (insert x ys)
    unfolding insert
    Leads-insert x y [] h l = (h, tt)
    Leads-insert x y (z ∷ zs) h l = ground (arith, Leads-insert x y zs h l.1)

    insert-IsSorted : (x : A) (ys : List A) → IsSorted ys → IsSorted (insert x ys)
    unfolding insert
    insert-IsSorted x [] s = (tt, tt)
    insert-IsSorted x (y ∷ ys) s = elim (Bool-cases (is_lt (cmp y x))) [
      | inl below ↦ rw below (Leads-insert x y ys (ground arith) s.0, insert-IsSorted x ys s.1)
      | inr above ↦
          let first : cmp x y ≢ Ordering.gt = λ e. ground (arith, c.flips x y) in
          rw above ((first, Leads-below x y ys first s.0), s)
    ]

    pub sort-IsSorted : (xs : List A) → IsSorted (sort xs)
    unfolding sort
    sort-IsSorted [] = tt
    sort-IsSorted (x ∷ xs) = insert-IsSorted x (sort xs) (sort-IsSorted xs)

-- Each item is in the relation to all that follow it.
module _ {A : Type 0} (R : A → A → Type 0) where
  abbrev pub IsBefore : A → List A → Type 0
  IsBefore x [] = Unit
  IsBefore x (y ∷ ys) = R x y × IsBefore x ys

  abbrev pub IsOrdered : List A → Type 0
  IsOrdered [] = Unit
  IsOrdered (x ∷ xs) = IsBefore x xs × IsOrdered xs

-- What a comparator promises of two items holds of each two of a sorted list.
module _ {A : Type 0} (cmp : A → A → Ordering) (R : A → A → Type 0)
    (promises : (a b : A) → cmp a b ≢ Ordering.gt → R a b) where
  Leads-IsBefore : (x : A) (xs : List A) → Leads cmp x xs → IsBefore R x xs
  Leads-IsBefore x [] l = tt
  Leads-IsBefore x (y ∷ ys) l = (promises x y l.0, Leads-IsBefore x ys l.1)

  pub IsSorted-IsOrdered : (xs : List A) → IsSorted cmp xs → IsOrdered R xs
  IsSorted-IsOrdered [] s = tt
  IsSorted-IsOrdered (x ∷ xs) s = (Leads-IsBefore x xs s.0, IsSorted-IsOrdered xs s.1)

module _ {A : Type 0} (cmp : A → A → Ordering) where
  insert-Has : (a x : A) (xs : List A) → Has a (insert cmp x xs) ↔ Has a (x ∷ xs)
  unfolding insert
  insert-Has a x [] = ground arith
  insert-Has a x (y ∷ ys) = ground (arith, insert-Has a x ys)

  pub sort-Has : (a : A) (xs : List A) → Has a (sort cmp xs) ↔ Has a xs
  unfolding sort
  sort-Has a [] = ground arith
  sort-Has a (x ∷ xs) = ground (arith, insert-Has a x (sort cmp xs), sort-Has a xs)
