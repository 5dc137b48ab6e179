-- ===== src/Prelude/Float.antt =====
-- Go's float64 and the parts of strconv and fmt that print and read it. The language of this
-- library has no floats: the type and its operations are a parameter, on which no law is assumed.
use mathlib.Core.Bool.{Bool}
use weops_inspect.Prelude.Int.{ℤ}
use weops_inspect.Prelude.Text.{Str}

pub record FloatOps (F : Type 0) : Type 0 where
  -- the comparisons a >= b, a > b and a == b, false at NaN
  pub ge : F → F → Bool
  pub gt : F → F → Bool
  pub eq : F → F → Bool
  pub zero_float : F
  -- float64(i)
  pub of_int : ℤ → F
  -- the value that strconv.ParseFloat(s, 64) returns, and whether its error is nil
  pub parse_float : Str → F × Bool
  -- Sprintf of %.0f and of %.2f
  pub format_0 : F → Str
  pub format_2 : F → Str
  -- x + y, x - y, x * y and x / y
  pub plus : F → F → F
  pub minus : F → F → F
  pub times : F → F → F
  pub over : F → F → F
  -- int(x)
  pub to_int : F → ℤ
