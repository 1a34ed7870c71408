-- ===== src/Lifecycle/History.antt =====
-- Induction over a history of commands.
use cairnline.Base.{◌≡◌, refl, subst, inl, inr, List, [], ◌∷◌, ok, arith, Result-cases}
use cairnline.Model.Clock.{Time}
use cairnline.Model.Assignment.{Assignment}
use cairnline.Lifecycle.Commands.{Command, check, change, attempt, after, run}

pub attempt-eq-ok :
    (m : Command) (now : Time) (a b : Assignment)
    → attempt m now a ≡ ok b
    → (check m ≡ ok tt) × (change m now a ≡ ok b)
unfolding attempt
attempt-eq-ok m now a b h = ground arith

-- Every command of the history, with its time, meets `Fine`.
abbrev pub AllFine : (Time → Command → Type 0) → List (Time × Command) → Type 0
AllFine Fine [] = Unit
AllFine Fine ((now, m) ∷ cs) = Fine now m × AllFine Fine cs

abbrev pub Anything : Time → Command → Type 0
Anything now m = Unit

pub all-Anything : (cs : List (Time × Command)) → AllFine Anything cs
all-Anything [] = tt
all-Anything ((now, m) ∷ cs) = (tt, all-Anything cs)

-- A fact that each fine command keeps when it succeeds holds after a history of fine commands.
module _ (P : Assignment → Type 0) (Fine : Time → Command → Type 0)
    (keep : (m : Command) (now : Time) (a b : Assignment)
      → Fine now m
      → check m ≡ ok tt
      → change m now a ≡ ok b
      → P a
      → P b) where
  after-keeps :
      (m : Command) (now : Time) (a : Assignment) → Fine now m → P a → P (after a (attempt m now a))
  after-keeps m now a f p = elim (Result-cases (attempt m now a)) [
    | inl (e, r) ↦ rw r p
    | inr (b, r) ↦
        let passed = attempt-eq-ok m now a b r in rw r (keep m now a b f passed.0 passed.1 p)
  ]

  pub run-keeps :
      (cs : List (Time × Command)) (a : Assignment) → AllFine Fine cs → P a → P (run cs a)
  unfolding run
  run-keeps [] a f p = p
  run-keeps ((now, m) ∷ cs) a f p =
      run-keeps cs (after a (attempt m now a)) f.1 (after-keeps m now a f.0 p)

-- If a state refuses every fine command, a history of fine commands leaves it as it is.
pub run_refused :
    (Fine : Time → Command → Type 0) (a : Assignment)
    → ((m : Command) (now : Time) (b : Assignment) → Fine now m → change m now a ≡ ok b → ⊥)
    → (cs : List (Time × Command)) → AllFine Fine cs
    → run cs a ≡ a
run_refused Fine a refused cs f =
    run-keeps (λ x. x ≡ a) Fine
      (λ m now x y fine _ h e.
        absurd (refused m now y fine (subst (λ z. change m now z ≡ ok y) e h)))
      cs a f refl
