-- ===== src/Service/Calls/Step.antt =====
-- A served request as one call of the store.
use cairnline.Base.{String, some, Result, ok, err, ◌≡◌, ◌⊎◌, inl, refl}
use cairnline.Model.Project.{Project}
use cairnline.MemoryStore.Accept.{RequestPayload}
use cairnline.MemoryStore.Calls.{Call, dispatch}
use cairnline.MemoryStore.State.{Store, project_at, key_eq}
use cairnline.Service.Canonical.{IsCanonical, IsCanonicalProject}
use cairnline.Service.Env.{Env}
use cairnline.Service.Projects.{write_through}
use cairnline.Service.Requests.{Outcome, done, refused, stored, stored_pair, removed}

-- A project that the store has is written through, and stays canonical where it is.
pub record Edited (s t : Store) : Type 0 where
  pub id : String
  pub old : Project
  pub edited : Project
  pub found : project_at s id ≡ some old
  pub same_id : edited.id ≡ old.id
  pub canonical : IsCanonicalProject old → IsCanonicalProject edited
  pub written : t ≡ write_through id edited s

abbrev pub Begun : Store → Store → Type 0
Begun s m = (m ≡ s) ⊎ Edited s m

module _ (fingerprint : RequestPayload → String) where
  -- One canonical call, which succeeds, makes the one store the other.
  pub record Called (env : Env) (s t : Store) : Type 0 where
    pub call : Call
    pub canonical : IsCanonical env s call
    pub dispatched : dispatch fingerprint s call ≡ ok t

  -- One canonical call, which succeeds, on a store that may have been written through before it.
  abbrev pub Reached : Env → Store → Store → Type 0
  Reached env s t = (m : Store) × Begun s m × Called env m t

  -- What an outcome may be: an answer after one canonical call; or a refusal, which has left the
  -- store alone, but for a write through a project, or made such a call before it.
  abbrev pub IsServed : Env → Store → Outcome → Type 0
  IsServed env s (done t) = Reached env s t
  IsServed env s (refused e t) = Begun s t ⊎ Reached env s t

  -- An answer whose store is that of a call.
  pub stored-IsServed :
      {A : Type 0} (env : Env) (s : Store) (r : Result (A × Store))
      → ((a : A) (t : Store) → r ≡ ok (a, t) → Called env s t)
      → IsServed env s (stored s r)
  stored-IsServed env s (ok (a, t)) h = (s, inl refl, h a t refl)
  stored-IsServed env s (err e) h = inl (inl refl)

  pub removed-IsServed :
      (env : Env) (s : Store) (r : Result Store)
      → ((t : Store) → r ≡ ok t → Called env s t)
      → IsServed env s (removed s r)
  removed-IsServed env s (ok t) h = (s, inl refl, h t refl)
  removed-IsServed env s (err e) h = inl (inl refl)

  pub stored_pair-IsServed :
      {A B : Type 0} (env : Env) (s : Store) (r : Result (A × B × Store))
      → ((a : A) (b : B) (t : Store) → r ≡ ok (a, b, t) → Called env s t)
      → IsServed env s (stored_pair s r)
  stored_pair-IsServed env s (ok (a, b, t)) h = (s, inl refl, h a b t refl)
  stored_pair-IsServed env s (err e) h = inl (inl refl)
