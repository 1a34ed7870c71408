-- ===== src/Service/Stated.antt =====
-- Texts that say something: trimmed, and not "". Every id and title that the service stores is one.
use cairnline.Base.{ℕ, String, false, List, [], ◌∷◌, ◌≡◌, ◌==◌, string_eq, Bool-cases, inl, inr}
use cairnline.Base.Text.{first_non_empty}
use cairnline.Base.Trim.{trim_space}
use cairnline.Base.Trimmed.{trim_space_idem}
use cairnline.Service.Env.{Env}

pub record IsStated (s : String) : Type 0 where
  pub trimmed : trim_space s ≡ s
  pub said : (s == "") ≡ false

abbrev pub AllStated : List String → Type 0
AllStated [] = Unit
AllStated (s ∷ rest) = IsStated s × AllStated rest

-- The ids that an environment draws are stated: `newID` and `secureAssignmentClaimID` put
-- hexadecimal digits behind a prefix.
pub record IsSound (env : Env) : Type 0 where
  pub new_id : (prefix : String) (n : ℕ) → IsStated (env.new_id prefix n)
  pub claim_id : IsStated env.claim_id

pub trim_space-IsStated : (s : String) → (trim_space s == "") ≡ false → IsStated (trim_space s)
trim_space-IsStated s h = record { trimmed = trim_space_idem s; said = h }

pub first_non_empty-IsStated :
    (s t : String) → IsStated t → IsStated (first_non_empty (trim_space s) t)
first_non_empty-IsStated s t h = elim (Bool-cases (trim_space s == "")) [
  | inl blank ↦ rw blank h
  | inr said ↦ rw said (trim_space-IsStated s said)
]

-- The two ids of most requests.
pub pair-AllStated :
    (p id : String)
    → (trim_space p == "") ≡ false
    → (trim_space id == "") ≡ false
    → AllStated (trim_space p ∷ trim_space id ∷ [])
pair-AllStated p id h k = (trim_space-IsStated p h, (trim_space-IsStated id k, tt))
