-- ===== src/Base/Time.antt =====
-- ISO timestamps and `Date`, which the language gives: a text is an instant in milliseconds since
-- the epoch, or a text that `new Date` does not read (`getTime()` is then NaN).
use orc_state.Base.Tests.{ltb}
use Prim.Native.Nat.{ℕ}
use Prim.Native.String.{String}
use mathlib.Core.Bool.{Bool, true, false, not}
use mathlib.Core.Option.{Option, none, some}
use text.Mathlib.Text.{◌==◌}

pub data Stamp : Type 0 where
  iso : ℕ → Stamp
  junk : String → Stamp

-- `new Date(ts).getTime()`, with `none` for NaN.
abbrev pub get_time : Stamp → Option ℕ
get_time (iso n) = some n
get_time (junk s) = none

-- `Number.isFinite(new Date(ts).getTime())`.
abbrev pub is_valid : Stamp → Bool
is_valid (iso n) = true
is_valid (junk s) = false

-- A timestamp in a condition: only the empty text is false.
abbrev pub stamp_truthy : Stamp → Bool
stamp_truthy (iso n) = true
stamp_truthy (junk s) = not (s == "")

abbrev pub opt_stamp_truthy : Option Stamp → Bool
opt_stamp_truthy none = false
opt_stamp_truthy (some t) = stamp_truthy t

-- `new Date(ts) < now`, false at NaN.
abbrev pub before : Stamp → ℕ → Bool
before (iso n) now = ltb n now
before (junk s) now = false

-- `new Date(ts) > now`, false at NaN.
abbrev pub after : Stamp → ℕ → Bool
after (iso n) now = ltb now n
after (junk s) now = false
