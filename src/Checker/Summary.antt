-- ===== src/Checker/Summary.antt =====
-- Summarize of checker/rules.go, and its copy recomputeSummary in notify/notify.go.
use weops_inspect.Prelude.{ℕ, ◌+◌, ◌≡◌, refl, Bool, List, [], ◌∷◌, arith, length, count_if}
use weops_inspect.Model.{
  CheckStatus, unset, ok, warn, unknown, notice, CheckResult, CheckSummary, is_ok, is_warn,
  is_unknown, is_notice, is_unset,
}

abbrev pub no_checks : CheckSummary
no_checks = record { total = 0; ok_count = 0; warn_count = 0; unknown_count = 0 }

-- One round: each counter that the status names, and Total, go up by one.
unfoldable pub tally : CheckStatus → CheckSummary → CheckSummary
tally ok s = record s { ok_count = s.ok_count + 1; total = s.total + 1 }
tally warn s = record s { warn_count = s.warn_count + 1; total = s.total + 1 }
tally unknown s = record s { unknown_count = s.unknown_count + 1; total = s.total + 1 }
tally notice s = s
tally unset s = s

unfoldable pub summarize_from : CheckSummary → List CheckResult → CheckSummary
unfolding tally
summarize_from s [] = s
summarize_from s (r ∷ rs) = summarize_from (tally r.status s) rs

unfoldable pub summarize : List CheckResult → CheckSummary
unfolding summarize_from
summarize = summarize_from no_checks

-- The number of checks with one of the statuses.
unfoldable pub count_status : (CheckStatus → Bool) → List CheckResult → ℕ
count_status p = count_if (λ r. p r.status)

-- How many results have each status, added to the counters of s.
abbrev Tallied : CheckSummary → List CheckResult → CheckSummary → Type 0
Tallied s rs t =
    (t.ok_count ≡ s.ok_count + count_status is_ok rs)
    × (t.warn_count ≡ s.warn_count + count_status is_warn rs)
    × (t.unknown_count ≡ s.unknown_count + count_status is_unknown rs)
    × (t.total + count_status is_notice rs + count_status is_unset rs ≡ s.total + length rs)

Tallied-tally :
    (s t : CheckSummary) (r : CheckResult) (rs : List CheckResult) (c : CheckStatus)
    → r.status ≡ c
    → Tallied (tally c s) rs t
    → Tallied s (r ∷ rs) t
unfolding tally count_status count_if
Tallied-tally s t r rs ok e h = rw e (omega arith)
Tallied-tally s t r rs warn e h = rw e (omega arith)
Tallied-tally s t r rs unknown e h = rw e (omega arith)
Tallied-tally s t r rs notice e h = rw e (omega arith)
Tallied-tally s t r rs unset e h = rw e (omega arith)

summarize_from-Tallied :
    (s : CheckSummary) (rs : List CheckResult) → Tallied s rs (summarize_from s rs)
unfolding summarize_from
summarize_from-Tallied s [] = unfold count_status count_if in omega arith
summarize_from-Tallied s (r ∷ rs) =
    Tallied-tally s (summarize_from (tally r.status s) rs) r rs r.status refl
      (summarize_from-Tallied (tally r.status s) rs)

-- The summary counts the OK, Warn and Unknown results, and its total counts every result but the
-- Notice ones and those with no status.
pub summarize_counts :
    (rs : List CheckResult)
    → let s = summarize rs in
      (s.ok_count ≡ count_status is_ok rs)
      × (s.warn_count ≡ count_status is_warn rs)
      × (s.unknown_count ≡ count_status is_unknown rs)
      × (s.total + count_status is_notice rs + count_status is_unset rs ≡ length rs)
unfolding summarize
summarize_counts rs = omega (arith, summarize_from-Tallied no_checks rs)
