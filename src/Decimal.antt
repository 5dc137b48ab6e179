-- ===== src/Decimal.antt =====
-- strconv.Itoa and strconv.Atoi, and %d of fmt.
use weops_inspect.Prelude.{
  ℕ, zero, suc, ◌+◌, ◌-◌, ◌*◌, ◌/◌, ◌%◌, ◌≡◌, refl, Bool, true, false, ◌&&◌, Option, none, some, [],
  ◌∷◌, leb, ◌==◌, if◌then◌else◌, ℤ, pos, negsuc, Str, codes,
}
use weops_inspect.Prelude.Int.{max_int}

-- The digits of n before `out`; the fuel suc n is enough, since n / 10 falls.
unfoldable pub emit : ℕ → ℕ → Str → Str
emit zero n out = out
emit (suc f) n out =
    let rest = emit f (n / 10) ((b'0' + n % 10) ∷ out) in
    if n / 10 == 0 then (b'0' + n % 10) ∷ out else rest

unfoldable pub itoa : ℤ → Str
unfolding emit
itoa (pos n) = emit (suc n) n []
itoa (negsuc n) = b'-' ∷ emit (suc (suc n)) (suc n) []

-- The value of a run of digits; `none` at any other character.
unfoldable pub scan : Str → ℕ → Option ℕ
scan [] n = some n
scan (c ∷ s) n = if leb b'0' c && leb c b'9' then scan s (n * 10 + (c - b'0')) else none

-- The value in range, and whether the error is nil: a syntax error gives 0, a range error the
-- nearest int64.
unfoldable pub in_range : Bool → Option ℕ → ℤ × Bool
in_range negative none = (pos 0, false)
in_range false (some n) = if leb n max_int then (pos n, true) else (pos max_int, false)
in_range true (some zero) = (pos 0, true)
in_range true (some (suc n)) = if leb n max_int then (negsuc n, true) else (negsuc max_int, false)

unfoldable pub atoi_unsigned : Bool → Str → ℤ × Bool
unfolding in_range scan
atoi_unsigned negative [] = (pos 0, false)
atoi_unsigned negative (c ∷ s) = in_range negative (scan (c ∷ s) 0)

unfoldable pub atoi : Str → ℤ × Bool
unfolding atoi_unsigned
atoi [] = (pos 0, false)
atoi (c ∷ s) =
    if c == b'-'
    then atoi_unsigned true s
    else if c == b'+'
    then atoi_unsigned false s
    else atoi_unsigned false (c ∷ s)

atoi_tests :
    (atoi (codes "-17") ≡ (negsuc 16, true))
    × (atoi (codes "9223372036854775808") ≡ (pos max_int, false))
    × (atoi (codes "12x") ≡ (pos 0, false))
    × (itoa (pos 10240) ≡ codes "10240")
unfolding atoi itoa
atoi_tests = (refl, refl, refl, refl)
