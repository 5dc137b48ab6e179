-- ===== src/Checker/Cells.antt =====
-- What the rules in checker/ share: a loop that mutates the elements of a slice and appends results,
-- and the reading of a report's coloured cells.
use weops_inspect.Prelude.{
  ℕ, ◌+◌, ◌≡◌, refl, ap, Bool, true, not, ◌||◌, List, [], ◌∷◌, ◌++◌, map, arith, if◌then◌else◌,
  filter, all, is_empty, count_if, count_if-append, Str,
}
use weops_inspect.Checker.Summary.{count_status}
use weops_inspect.Model.{CheckStatus, ok, is_warn, is_notice, is_unknown, is_unset, CheckResult}

-- The results of a rule that reports only where the test holds.
unfoldable pub report_if : Bool → CheckResult → List CheckResult
report_if b r = if b then r ∷ [] else []

-- The status where the test holds, and OK elsewhere.
unfoldable pub flag_if : Bool → CheckStatus → CheckStatus
flag_if b s = if b then s else ok

-- s != ""
abbrev pub present : Str → Bool
present s = not (is_empty s)

module _ {ℓ} {A : Type ℓ} where
  -- for i := range xs { results = append(results, f(&xs[i])...) }
  unfoldable pub each : (A → A × List CheckResult) → List A → List A × List CheckResult
  each f [] = ([], [])
  each f (x ∷ xs) = let here = f x in let rest = each f xs in (here.0 ∷ rest.0, here.1 ++ rest.1)

  -- The cells of the elements, one after the other.
  unfoldable pub gather : (A → List CheckStatus) → List A → List CheckStatus
  gather cells [] = []
  gather cells (x ∷ xs) = cells x ++ gather cells xs

-- A cell that a reader sees coloured as a problem.
abbrev pub is_flagged : CheckStatus → Bool
is_flagged s = is_warn s || is_notice s || is_unknown s

abbrev pub is_coloured : CheckStatus → Bool
is_coloured s = not (is_unset s)

abbrev pub statuses : List CheckResult → List CheckStatus
statuses = map (λ r. r.status)

pub statuses-append : (rs ss : List CheckResult) → statuses (rs ++ ss) ≡ statuses rs ++ statuses ss
statuses-append [] ss = refl
statuses-append (r ∷ rs) ss = ap (λ l. r.status ∷ l) (statuses-append rs ss)

pub filter-append :
    (p : CheckStatus → Bool) (xs ys : List CheckStatus)
    → filter p (xs ++ ys) ≡ filter p xs ++ filter p ys
unfolding filter
filter-append p [] ys = refl
filter-append p (x ∷ xs) ys = ground (arith, filter-append p xs ys)

-- If the results of each element are the marked cells of the element that is left, so they are
-- for a loop over all of them.
pub each-cells {ℓ} :
    {A : Type ℓ} (p : CheckStatus → Bool) (cells : A → List CheckStatus)
    (f : A → A × List CheckResult)
    → ((x : A) → statuses (f x).1 ≡ filter p (cells (f x).0))
    → (xs : List A) → statuses (each f xs).1 ≡ filter p (gather cells (each f xs).0)
unfolding each gather filter
each-cells p cells f agree [] = refl
each-cells p cells f agree (x ∷ xs) = rw (
  statuses-append (f x).1 (each f xs).1,
  filter-append p (cells (f x).0) (gather cells (each f xs).0),
  agree x,
  each-cells p cells f agree xs,
)

-- The number of results with one status is the sum over the elements.
unfoldable pub sum_of {ℓ} : {A : Type ℓ} → (A → ℕ) → List A → ℕ
sum_of f [] = 0
sum_of f (x ∷ xs) = f x + sum_of f xs

pub count_status-append :
    (p : CheckStatus → Bool) (rs ss : List CheckResult)
    → count_status p (rs ++ ss) ≡ count_status p rs + count_status p ss
unfolding count_status
count_status-append p rs ss = count_if-append (λ r. p r.status) rs ss

pub count_status-each {ℓ} :
    {A : Type ℓ} (p : CheckStatus → Bool) (n : A → ℕ) (f : A → A × List CheckResult)
    → ((x : A) → count_status p (f x).1 ≡ n x)
    → (xs : List A) → count_status p (each f xs).1 ≡ sum_of n xs
unfolding each sum_of
count_status-each p n f h [] = unfold count_status count_if in refl
count_status-each p n f h (x ∷ xs) =
    rw (count_status-append p (f x).1 (each f xs).1, h x, count_status-each p n f h xs)

abbrev pub one_if : Bool → ℕ
one_if b = if b then 1 else 0

-- The same for elements that all pass a test.
pub each-cells-where {ℓ} :
    {A : Type ℓ} (q : A → Bool) (p : CheckStatus → Bool) (cells : A → List CheckStatus)
    (f : A → A × List CheckResult)
    → ((x : A) → q x ≡ true → statuses (f x).1 ≡ filter p (cells (f x).0))
    → (xs : List A) → all q xs ≡ true
    → statuses (each f xs).1 ≡ filter p (gather cells (each f xs).0)
unfolding each gather filter all
each-cells-where q p cells f agree [] h = refl
each-cells-where q p cells f agree (x ∷ xs) h = rw (
  statuses-append (f x).1 (each f xs).1,
  filter-append p (cells (f x).0) (gather cells (each f xs).0),
  agree x (ground arith),
  each-cells-where q p cells f agree xs (ground arith),
)
