-- ===== src/Common/Dates.antt =====
-- `calculate_age` of apps/common/utils.py, on calendar dates.
use Prim.Native.Nat.{ℕ, ◌-◌}
use mathlib.Core.Bool.{Bool, ◌&&◌, ◌||◌}
use date_app.Common.Tests.{ltb, ◌==◌, if◌then◌else◌}

pub record Date : Type 0 where
  pub year : ℕ
  pub month : ℕ
  pub day : ℕ

-- The order of the tuples (month, day).
abbrev pub is_before : Date → Date → Bool
is_before a b = ltb a.month b.month || a.month == b.month && ltb a.day b.day

-- `calculate_age`, for somebody born by today.
abbrev pub calculate_age : Date → Date → ℕ
calculate_age today born = today.year - born.year - (if is_before today born then 1 else 0)
