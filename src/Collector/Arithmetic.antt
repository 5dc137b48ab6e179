-- ===== src/Collector/Arithmetic.antt =====
-- collector/rabbitmq.go: sums and quotients of int, and the text of an uptime.
use weops_inspect.Prelude.{
  ℕ, suc, ◌+◌, ◌-◌, ◌/◌, ◌%◌, ◌^◌, ◌++◌, ltb, if◌then◌else◌, ℤ, pos, negsuc, pos_part, neg_part,
  sub_ℕ, Str, codes,
}
use weops_inspect.Decimal.{itoa}

-- An int64, wrapped.
unfoldable pub wrap_int : ℤ → ℤ
wrap_int (pos n) = let m = n % 2 ^ 64 in if ltb m (2 ^ 63) then pos m else negsuc (2 ^ 64 - m - 1)
wrap_int (negsuc n) =
    let m = n % 2 ^ 64 in if ltb m (2 ^ 63) then negsuc m else pos (2 ^ 64 - m - 1)

-- a + b in int64
unfoldable pub add_int : ℤ → ℤ → ℤ
unfolding wrap_int
add_int a b = wrap_int (sub_ℕ (pos_part a + pos_part b) (neg_part a + neg_part b))

-- a / d and a % d for a positive d, which round towards 0.
unfoldable pub quot_int : ℤ → ℕ → ℤ
quot_int (pos n) d = pos (n / d)
quot_int (negsuc n) d = sub_ℕ 0 (suc n / d)

unfoldable pub rem_int : ℤ → ℕ → ℤ
rem_int (pos n) d = pos (n % d)
rem_int (negsuc n) d = sub_ℕ 0 (suc n % d)

-- "%dd %dh %dm"
unfoldable pub uptime_text : ℤ → Str
unfolding quot_int rem_int itoa
uptime_text secs =
    itoa (quot_int secs 86400)
    ++ codes "d "
    ++ itoa (quot_int (rem_int secs 86400) 3600)
    ++ codes "h "
    ++ itoa (quot_int (rem_int secs 3600) 60)
    ++ codes "m"
