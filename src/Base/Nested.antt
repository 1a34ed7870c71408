-- ===== src/Base/Nested.antt =====
-- Go's `map[string]map[string]V`, read and written by project and id. A missing inner map reads
-- as an empty one; the code makes it before it writes to it.
use Prim.Native.String.{String}
use mathlib.Core.Path.{◌≡◌}
use mathlib.Core.Bool.{Bool, ◌&&◌}
use mathlib.Core.Option.{Option, none, some}
use native.Mathlib.Omega.{arith}
use text.Mathlib.TextEquality.{eq_iff}
use cairnline.Base.Tests.{◌==◌, if◌then◌else◌, string_eq}
use cairnline.Base.Table
use cairnline.Base.Table.{Table}

abbrev pub Nested {ℓ} : Type ℓ → Type ℓ
Nested V = Table String (Table String V)

module _ {ℓ} {V : Type ℓ} where
  abbrev pub inner : Option (Table String V) → Table String V
  inner none = Table.empty
  inner (some t) = t

  -- `m[p]`, to be ranged over
  unfoldable pub within : String → Nested V → Table String V
  unfolding Table.get Table.empty
  within p m = inner (Table.get p m)

  -- `m[p][k]`
  unfoldable pub get : String → String → Nested V → Option V
  unfolding within
  get p k m = Table.get k (within p m)

  -- `m[p][k] = v`
  unfoldable pub put : String → String → V → Nested V → Nested V
  unfolding within Table.put
  put p k v m = Table.put p (Table.put k v (within p m)) m

  -- `for k, v := range m[p] { if test(v) { delete(m[p], k) } }`
  unfoldable pub delete_where : String → (V → Bool) → Nested V → Nested V
  unfolding within Table.put Table.delete_where
  delete_where p test m = Table.put p (Table.delete_where (λ _ v. test v) (within p m)) m

  -- `delete(m[p], k)`
  unfoldable pub delete : String → String → Nested V → Nested V
  unfolding within Table.put Table.delete
  delete p k m = Table.put p (Table.delete k (within p m)) m

  -- `delete(m, p)`
  unfoldable pub delete_all : String → Nested V → Nested V
  unfolding Table.delete
  delete_all p m = Table.delete p m

  abbrev pub unless : (V → Bool) → Option V → Option V
  unless test none = none
  unless test (some v) = if test v then none else some v

  pub get-put :
      (q j p k : String) (v : V) (m : Nested V)
      → get q j (put p k v m) ≡ (if p == q && k == j then some v else get q j m)
  unfolding get within put
  get-put q j p k v m = simp Table.table_laws (
      ground (
        arith,
        eq_iff p q,
        Table.get-put j k v (inner (Table.get p m)),
        Table.get-put j k v (inner (Table.get q m)),
      ))

  pub get-put_same : (p k : String) (v : V) (m : Nested V) → get p k (put p k v m) ≡ some v
  get-put_same p k v m = rw (get-put p k p k v m) (ground (arith, eq_iff p p, eq_iff k k))

  pub get-delete_where :
      (q j p : String) (test : V → Bool) (m : Nested V)
      → get q j (delete_where p test m) ≡ (if p == q then unless test (get q j m) else get q j m)
  unfolding get within delete_where
  get-delete_where q j p test m = simp Table.table_laws (
      ground (
        arith,
        eq_iff p q,
        Table.get-delete_where j (λ _ v. test v) (inner (Table.get p m)),
        Table.get-delete_where j (λ _ v. test v) (inner (Table.get q m)),
      ))

  pub get-delete :
      (q j p k : String) (m : Nested V)
      → get q j (delete p k m) ≡ (if p == q && k == j then none else get q j m)
  unfolding get within delete
  get-delete q j p k m = simp Table.table_laws (
      ground (
        arith,
        eq_iff p q,
        Table.get-delete j k (inner (Table.get p m)),
        Table.get-delete j k (inner (Table.get q m)),
      ))

  pub get-delete_all :
      (q j p : String) (m : Nested V)
      → get q j (delete_all p m) ≡ (if p == q then none else get q j m)
  unfolding get within delete_all
  get-delete_all q j p m =
      simp Table.table_laws (ground (arith, eq_iff p q, Table.get-empty {V = V} j))

pub ruleset nested_laws = (get-put, get-delete, get-delete_where, get-delete_all)
