-- ===== src/ErrorCode.antt =====
-- internal/core/errorcode.go: the stable code of an error. The trees are those that `errors.New`,
-- `fmt.Errorf` with its wrapping verb, and `errors.Join` build.
use Prim.Native.Nat.{min}
use cairnline.Base.{ℕ, String, Bool, true, false, ◌||◌, Option, none, some, if◌then◌else◌}

-- The four errors of internal/core/store.go.
pub data Sentinel : Type 0 where
  not_found invalid duplicate conflict : Sentinel

abbrev same_sentinel : Sentinel → Sentinel → Bool
same_sentinel not_found not_found = true
same_sentinel invalid invalid = true
same_sentinel duplicate duplicate = true
same_sentinel conflict conflict = true
same_sentinel _ _ = false

mutual
  pub data GoError : Type 0 where
    sentinel : Sentinel → GoError
    new : String → GoError
    wrap : String → GoError → GoError
    joined : GoErrors → GoError

  pub data GoErrors : Type 0 where
    nil : GoErrors
    cons : GoError → GoErrors → GoErrors

unfoldable mutual
  -- `errors.Is(err, target)`
  pub is_error : GoError → Sentinel → Bool
  is_error (sentinel s) target = same_sentinel s target
  is_error (new text) target = false
  is_error (wrap text e) target = is_error e target
  is_error (joined es) target = is_any es target

  pub is_any : GoErrors → Sentinel → Bool
  is_any nil target = false
  is_any (cons e es) target = is_error e target || is_any es target

pub data ErrorCode : Type 0 where
  no_code code_not_found code_already_exists code_conflict code_invalid code_internal : ErrorCode

-- `ClassifyErrorCode`
unfoldable pub classify_error_code : Option GoError → ErrorCode
unfolding is_error
classify_error_code none = no_code
classify_error_code (some e) =
    if is_error e not_found
    then code_not_found
    else if is_error e duplicate
    then code_already_exists
    else if is_error e conflict
    then code_conflict
    else if is_error e invalid
    then code_invalid
    else code_internal

-- The text of a code.
abbrev code_text : ErrorCode → String
code_text no_code = ""
code_text code_not_found = "not_found"
code_text code_already_exists = "already_exists"
code_text code_conflict = "conflict"
code_text code_invalid = "invalid"
code_text code_internal = "internal"

-- The order of precedence.
abbrev pub precedence : ErrorCode → ℕ
precedence no_code = 6
precedence code_not_found = 1
precedence code_already_exists = 2
precedence code_conflict = 3
precedence code_invalid = 4
precedence code_internal = 5

-- The precedence of the best of the codes of several errors.
abbrev pub best_precedence : GoErrors → ℕ
best_precedence nil = 5
best_precedence (cons e es) = min (precedence (classify_error_code (some e))) (best_precedence es)
