-- ===== src/Base/Table.antt =====
-- Go's maps: an association list in which no key stands twice. Clients see the operations and the
-- laws, each of which tells what a read finds after one operation.
use mathlib.Core.Path.{◌≡◌, refl, ap, subst, ◌∙◌}
use mathlib.Core.Logic.{inl, inr}
use mathlib.Core.Bool.{Bool, true, false}
use mathlib.Core.Option.{Option, none, some}
use mathlib.Core.List.{List, [], ◌∷◌}
use native.Mathlib.Omega.{arith}
use mathlib.Core.Logic.{◌↔◌}
use cairnline.Base.Sorting.{Has}
use cairnline.Base.Tests.{Eq, ◌==◌, if◌then◌else◌, Bool-cases}

pub beq_sym {ℓ} : {K : Type ℓ} ⦃e : Eq K⦄ (k j : K) → (k == j) ≡ (j == k)
beq_sym ⦃e⦄ k j = ground (arith, e.beq_iff k j, e.beq_iff j k)

beq_refl {ℓ} : {K : Type ℓ} ⦃e : Eq K⦄ (k : K) → (k == k) ≡ true
beq_refl ⦃e⦄ k = (e.beq_iff k k).1 refl

module _ {ℓ κ} {K : Type ℓ} {V : Type κ} ⦃e : Eq K⦄ where
  unfoldable pub find : K → List (K × V) → Option V
  find k [] = none
  find k ((j, v) ∷ r) = if j == k then some v else find k r

  unfoldable pub write : K → V → List (K × V) → List (K × V)
  write k v [] = (k, v) ∷ []
  write k v ((j, w) ∷ r) = if j == k then (k, v) ∷ r else (j, w) ∷ write k v r

  -- The entries that a loop with `delete` leaves.
  unfoldable pub sift : (K → V → Bool) → List (K × V) → List (K × V)
  sift p [] = []
  sift p ((j, v) ∷ r) = let rest = sift p r in if p j v then rest else (j, v) ∷ rest

  abbrev pub IsUnique : List (K × V) → Type κ
  IsUnique [] = Unit
  IsUnique ((k, v) ∷ r) = (find k r ≡ none) × IsUnique r

  abbrev pub kept : (K → V → Bool) → K → Option V → Option V
  kept p k none = none
  kept p k (some v) = if p k v then none else some v

  find-write :
      (k j : K) (v : V) (r : List (K × V))
      → find j (write k v r) ≡ (if k == j then some v else find j r)
  unfolding find write
  find-write k j v [] = refl
  find-write k j v ((i, w) ∷ r) =
      ground (arith, e.beq_iff k j, e.beq_iff i k, e.beq_iff i j, find-write k j v r)

  pub write-IsUnique : (k : K) (v : V) (r : List (K × V)) → IsUnique r → IsUnique (write k v r)
  unfolding find write
  write-IsUnique k v [] u = (refl, tt)
  write-IsUnique k v ((i, w) ∷ r) u = elim (Bool-cases (i == k)) [
    | inl same ↦ rw same (subst (λ j. find j r ≡ none) ((e.beq_iff i k).0 same) u.0, u.1)
    | inr other ↦
        rw other (find-write k i v r ∙ rw (beq_sym k i, other) u.0, write-IsUnique k v r u.1)
  ]

  find-sift :
      (p : K → V → Bool) (j : K) (r : List (K × V))
      → IsUnique r
      → find j (sift p r) ≡ kept p j (find j r)
  unfolding find sift
  find-sift p j [] u = refl
  find-sift p j ((i, w) ∷ r) u = elim (Bool-cases (i == j)) [
    | inl same ↦
        let gone : find j r ≡ none = subst (λ k. find k r ≡ none) ((e.beq_iff i j).0 same) u.0 in
        ground (arith, e.beq_iff i j, gone, find-sift p j r u.1)
    | inr other ↦ ground (arith, find-sift p j r u.1)
  ]

  pub sift-IsUnique : (p : K → V → Bool) (r : List (K × V)) → IsUnique r → IsUnique (sift p r)
  unfolding find sift
  sift-IsUnique p [] u = tt
  sift-IsUnique p ((i, w) ∷ r) u = ground (arith, find-sift p i r u.1, sift-IsUnique p r u.1)

-- `for _, v := range m { out = append(out, v) }`
unfoldable pub values_of {ℓ κ} : {K : Type ℓ} {V : Type κ} → List (K × V) → List V
values_of [] = []
values_of ((k, v) ∷ r) = v ∷ values_of r

pub record Table {ℓ κ} (K : Type ℓ) ⦃e : Eq K⦄ (V : Type κ) : Type (ℓ ⊔ κ) where
  pub entries : List (K × V)
  pub unique : IsUnique entries

module _ {ℓ κ} {K : Type ℓ} {V : Type κ} ⦃e : Eq K⦄ where
  -- `make(map[K]V)`
  unfoldable pub empty : Table K V
  empty = record { entries = []; unique = tt }

  -- `m[k]`
  unfoldable pub get : K → Table K V → Option V
  unfolding find
  get k t = find k t.entries

  -- `m[k] = v`
  unfoldable pub put : K → V → Table K V → Table K V
  unfolding write
  put k v t = record {
    entries = write k v t.entries;
    unique = write-IsUnique k v t.entries t.unique;
  }

  -- `for k, v := range m { if p(k, v) { delete(m, k) } }`
  unfoldable pub delete_where : (K → V → Bool) → Table K V → Table K V
  unfolding sift
  delete_where p t = record {
    entries = sift p t.entries;
    unique = sift-IsUnique p t.entries t.unique;
  }

  -- `delete(m, k)`
  unfoldable pub delete : K → Table K V → Table K V
  unfolding delete_where
  delete k = delete_where (λ j _. j == k)

  -- `for k, v := range m`, in the order of the list; Go leaves the order open.
  unfoldable pub to_list : Table K V → List (K × V)
  to_list t = t.entries

  unfoldable pub values : Table K V → List V
  unfolding values_of
  values t = values_of t.entries

  pub get-empty : (k : K) → get k empty ≡ none
  unfolding get empty
  get-empty k = refl

  pub get-put :
      (j k : K) (v : V) (t : Table K V) → get j (put k v t) ≡ (if k == j then some v else get j t)
  unfolding get put
  get-put j k v t = find-write k j v t.entries

  pub get-put_same : (k : K) (v : V) (t : Table K V) → get k (put k v t) ≡ some v
  get-put_same k v t = rw (get-put k k v t) (ground (arith, beq_refl k))

  pub get-delete_where :
      (j : K) (p : K → V → Bool) (t : Table K V) → get j (delete_where p t) ≡ kept p j (get j t)
  unfolding get delete_where
  get-delete_where j p t = find-sift p j t.entries t.unique

  pub get-delete :
      (j k : K) (t : Table K V) → get j (delete k t) ≡ (if k == j then none else get j t)
  unfolding delete
  get-delete j k t = rw get-delete_where (ground (arith, beq_sym j k))

pub ruleset table_laws = (get-empty, get-put, get-delete, get-delete_where)

-- The values are those that a read finds.
module _ {K V : Type 0} ⦃e : Eq K⦄ where
  find-Has : (k : K) (v : V) (r : List (K × V)) → find k r ≡ some v → Has v (values_of r)
  unfolding find values_of
  find-Has k v [] h = cc
  find-Has k v ((j, w) ∷ r) h = ground (arith, find-Has k v r)

  Has-find :
      (v : V) (r : List (K × V)) → IsUnique r → Has v (values_of r) → (k : K) × (find k r ≡ some v)
  unfolding find values_of
  Has-find v [] u h = absurd h
  Has-find v ((j, w) ∷ r) u (inl same) = (j, ground (arith, beq_refl j))
  Has-find v ((j, w) ∷ r) u (inr later) =
      let found = Has-find v r u.1 later in
      let apart : (j == found.0) ≡ false = ground (
        arith,
        u.0,
        found.1,
        e.beq_iff j found.0,
        λ (same : j ≡ found.0). ap (λ k. find k r) same,
      ) in
      (found.0, rw apart found.1)

  pub values-Has : (v : V) (t : Table K V) → Has v (values t) ↔ ((k : K) × (get k t ≡ some v))
  unfolding values get
  values-Has v t = (Has-find v t.entries t.unique, λ h. find-Has h.0 v t.entries h.1)
