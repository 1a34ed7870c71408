-- ===== src/Base/Texts.antt =====
-- Lists of texts: joined, or without blanks and repetitions.
use Prim.Native.String.{String, ◌++◌}
use mathlib.Core.Path.{◌≡◌, refl, ◌∙◌}
use mathlib.Core.Bool.{not}
use mathlib.Core.List.{List, [], ◌∷◌}
use native.Mathlib.Omega.{arith}
use cairnline.Base.Lists.{is_nil, any, filter, map}
use cairnline.Base.Tests.{if◌then◌else◌, ◌==◌, string_eq}
use cairnline.Base.Trim.{trim_space, is_blank}

-- `strings.Join(parts, separator)`
unfoldable pub join : String → List String → String
join separator [] = ""
join separator (s ∷ []) = s
join separator (s ∷ t ∷ rest) = s ++ separator ++ join separator (t ∷ rest)

-- The first of each group of equal texts.
unfoldable first_of_each : List String → List String → List String
first_of_each seen [] = []
first_of_each seen (s ∷ rest) =
    let known = any (λ t. t == s) seen in
    let more = first_of_each (if known then seen else s ∷ seen) rest in
    if known then more else s ∷ more

-- `uniqueReadinessStrings`
unfoldable pub unique_readiness_strings : List String → List String
unfolding first_of_each
unique_readiness_strings values =
    first_of_each [] (filter (λ s. not (s == "")) (map trim_space values))

-- `compactStrings`: the same loop
unfoldable pub compact_strings : List String → List String
unfolding first_of_each
compact_strings values = first_of_each [] (filter (λ s. not (s == "")) (map trim_space values))

is_nil-first : (xs : List String) → is_nil (first_of_each [] xs) ≡ is_nil xs
unfolding first_of_each any
is_nil-first [] = refl
is_nil-first (s ∷ rest) = refl

is_nil-trimmed :
    (xs : List String)
    → is_nil (filter (λ s. not (s == "")) (map trim_space xs))
      ≡ not (any (λ s. not (is_blank s)) xs)
unfolding filter map any
is_nil-trimmed [] = refl
is_nil-trimmed (x ∷ xs) = ground (arith, is_nil-trimmed xs)

pub is_nil-unique_readiness_strings :
    (xs : List String) → is_nil (unique_readiness_strings xs) ≡ not (any (λ s. not (is_blank s)) xs)
unfolding unique_readiness_strings
is_nil-unique_readiness_strings xs =
    is_nil-first (filter (λ s. not (s == "")) (map trim_space xs)) ∙ is_nil-trimmed xs
