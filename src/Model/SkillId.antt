-- ===== src/Model/SkillId.antt =====
-- `normalizeSkillID` of internal/core/service.go. `strings.ToLower` is a parameter: it follows
-- Unicode's tables.
use Prim.Native.Char.{Char, code}
use Prim.Native.String.{String, [], ◌∷◌, ◌++◌}
use cairnline.Base.{
  Bool, true, false, not, ◌||◌, ◌&&◌, if◌then◌else◌, ◌==◌, nat_eq, string_eq, leb, ◌≡◌, refl,
}
use cairnline.Base.Trim.{trim_space, is_space}

-- A letter, a digit or "_"
unfoldable is_word : Char → Bool
is_word c = let n = code c in (leb 97 n && leb n 122) || (leb 48 n && leb n 57) || n == 95

-- "-", " " and "."
unfoldable is_separator : Char → Bool
is_separator c = let n = code c in n == 45 || n == 32 || n == 46

-- What the loop writes after `out`, where `last` says that a dash was written last.
unfoldable write_rune : Char → String → Bool → String
unfolding is_word is_separator
write_rune c out last =
    if is_word c
    then out ++ c ∷ []
    else if is_separator c && not last && not (out == "")
    then out ++ "-"
    else out

unfoldable last_dash : Char → String → Bool → Bool
unfolding is_word is_separator
last_dash c out last =
    if is_word c
    then false
    else if is_separator c && not last && not (out == "")
    then true
    else last

unfoldable write_runes : String → String → Bool → String
unfolding write_rune last_dash
write_runes [] out last = out
write_runes (c ∷ s) out last = write_runes s (write_rune c out last) (last_dash c out last)

-- `strings.Trim(s, "-")`
unfoldable drop_dashes : String → String
drop_dashes [] = []
drop_dashes (c ∷ s) = let rest = drop_dashes s in if code c == 45 then rest else c ∷ s

unfoldable keep_dash : Char → String → String
keep_dash c [] = if code c == 45 then [] else c ∷ []
keep_dash c (d ∷ s) = c ∷ d ∷ s

unfoldable drop_last_dashes : String → String
unfolding keep_dash
drop_last_dashes [] = []
drop_last_dashes (c ∷ s) = keep_dash c (drop_last_dashes s)

unfoldable pub normalize_skill_id : (String → String) → String → String
unfolding write_runes drop_dashes drop_last_dashes
normalize_skill_id to_lower value =
    drop_last_dashes (drop_dashes (write_runes (trim_space (to_lower value)) "" false))

slug : normalize_skill_id (λ s. s) " a--b. c_1 !- " ≡ "a-b-c_1"
unfolding normalize_skill_id trim_space is_space
slug = refl
