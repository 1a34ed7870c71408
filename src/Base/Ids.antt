-- ===== src/Base/Ids.antt =====
-- Lists of ids that grow without repetition.
use Prim.Native.String.{String}
use mathlib.Core.Bool.{◌||◌}
use mathlib.Core.List.{List, [], ◌∷◌, ◌++◌}
use cairnline.Base.Lists.{any}
use cairnline.Base.Tests.{if◌then◌else◌, ◌==◌, string_eq}
use cairnline.Base.Trim.{trim_space}

-- `appendUnique`
unfoldable pub append_unique : List String → String → List String
unfolding any
append_unique values value =
    let trimmed = trim_space value in
    if trimmed == "" || any (λ v. v == trimmed) values then values else values ++ trimmed ∷ []

-- `for _, id := range ids { out = appendUnique(out, id) }`
unfoldable pub append_each : List String → List String → List String
unfolding append_unique
append_each out [] = out
append_each out (id ∷ rest) = append_each (append_unique out id) rest
