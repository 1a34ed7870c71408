-- ===== src/Model/Clock.antt =====
-- Instants and durations of Go's `time`, in nanoseconds. An instant counts from the zero value of
-- `time.Time`; a duration that is not positive is 0.
use cairnline.Base.{ℕ, ◌+◌, Bool, ltb, ◌==◌, nat_eq}

abbrev pub Time : Type 0
Time = ℕ

abbrev pub Duration : Type 0
Duration = ℕ

-- `t.IsZero()`
abbrev pub is_zero : Time → Bool
is_zero t = t == 0

-- `t.Before(u)`, and `u.After(t)`
abbrev pub before : Time → Time → Bool
before t u = ltb t u

-- `t.Add(time.Nanosecond)`
abbrev pub tick : Time → Time
tick t = t + 1
