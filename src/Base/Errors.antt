-- ===== src/Base/Errors.antt =====
-- The store's typed errors (internal/core/store.go) and results that may carry one.
use Prim.Native.String.{String}
use mathlib.Core.Path.{◌≡◌, refl}
use mathlib.Core.Logic.{◌⊎◌, inl, inr}
use mathlib.Core.Bool.{Bool, true, false}
use mathlib.Core.Option.{Option, none, some}

-- The four sentinels. `invalid` carries the text that `errors.Join` adds, "" for the bare sentinel.
pub data StoreError : Type 0 where
  not_found duplicate conflict : StoreError
  invalid : String → StoreError

pub data Result {κ} (V : Type κ) : Type κ where
  err : StoreError → Result V
  ok : V → Result V

infixl 5 ◌>>◌ ◌>>=◌
abbrev pub ◌>>=◌ {ι κ} : {V : Type ι} {W : Type κ} → Result V → (V → Result W) → Result W
err failed >>= next = err failed
ok v >>= next = next v

abbrev pub ◌>>◌ {κ} : {W : Type κ} → Result (Unit {0}) → Result W → Result W
first >> second = first >>= λ _. second

-- `if !test { return err }`
abbrev pub guard : Bool → StoreError → Result (Unit {0})
guard true e = ok tt
guard false e = err e

-- `if test { return err }`
abbrev pub reject : Bool → StoreError → Result (Unit {0})
reject true e = err e
reject false e = ok tt

-- `v, ok := m[k]; if !ok { return err }`
abbrev pub or_fail {ℓ} : {A : Type ℓ} → Option A → StoreError → Result A
or_fail none e = err e
or_fail (some a) e = ok a

pub Result-cases {ℓ} :
    {A : Type ℓ} (r : Result A) → ((e : StoreError) × (r ≡ err e)) ⊎ ((a : A) × (r ≡ ok a))
Result-cases (err e) = inl (e, refl)
Result-cases (ok a) = inr (a, refl)

pub >>=-eq-ok {ι κ} :
    {V : Type ι} {W : Type κ} (r : Result V) (next : V → Result W) {w : W}
    → (r >>= next) ≡ ok w
    → (v : V) × (r ≡ ok v) × (next v ≡ ok w)
>>=-eq-ok (err failed) next h = cc
>>=-eq-ok (ok v) next h = (v, refl, h)

-- `if _, ok := m[k]; !ok { return ErrNotFound }`
abbrev pub require {ℓ} : {A : Type ℓ} → Option A → Result (Unit {0})
require none = err not_found
require (some a) = ok tt

-- `if _, ok := m[k]; ok { return ErrDuplicate }`
abbrev pub require_absent {ℓ} : {A : Type ℓ} → Option A → Result (Unit {0})
require_absent none = ok tt
require_absent (some a) = err duplicate
