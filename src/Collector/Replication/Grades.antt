-- ===== src/Collector/Replication/Grades.antt =====
-- collector/replication.go with checker/rules.go: the problems of one node, and the warnings for one
-- master and for one slave of MySQL.
use weops_inspect.Prelude.{
  ℕ, ◌+◌, ◌≡◌, refl, inl, inr, Bool, true, false, not, ◌&&◌, Option, none, some, [], ◌∷◌, arith,
  count_if, ℤ, pos, ltb_ℤ, leb_ℤ, eqb_ℤ, Str, codes, str_eq, str_eq_refl, Dict,
}
use weops_inspect.Model.{is_warn}
use weops_inspect.Checker.Summary.{count_status}
use weops_inspect.Checker.Cells.{one_if}
use weops_inspect.Checker.Host.{make_result}
use weops_inspect.Checker.Replication.{check_master, check_slave}
use weops_inspect.Collector.Probe.{Failure, Answer}
use weops_inspect.Collector.MySql.{pick_first, slave_io, slave_sql}
use weops_inspect.Collector.Redis.{parse_redis_info, info_get}
use weops_inspect.Collector.Replication.{
  failed_master, master_of, master_after, slave_after, lag_of, slave_grade, replication_of,
  failed_slave, slave_of, number_of,
}

-- A master that answers that it is not read-only.
abbrev pub is_writable : Option Failure → Answer ℤ → Bool
is_writable none (inl v) = not (eqb_ℤ v (pos 1))
is_writable _ _ = false

-- Both threads run, and the lag is within the threshold.
unfoldable pub is_replicating : ℤ → Dict Str → Bool
unfolding slave_io slave_sql lag_of pick_first
is_replicating threshold row =
    str_eq (slave_io row) (codes "Yes")
    && str_eq (slave_sql row) (codes "Yes")
    && leb_ℤ
        (lag_of
          (pick_first row (codes "Seconds_Behind_Master" ∷ codes "Seconds_Behind_Source" ∷ [])))
        threshold

-- A slave that answers, and does not replicate.
abbrev pub is_failing : ℤ → Option Failure → Answer (Dict Str) → Bool
is_failing threshold none (inl []) = true
is_failing threshold none (inl (c ∷ row)) = not (is_replicating threshold (c ∷ row))
is_failing threshold _ _ = false

-- The link of a slave of Redis to its master is up, and was used within the threshold.
unfoldable pub is_linked : ℤ → Dict Str → Bool
unfolding info_get number_of
is_linked threshold info =
    str_eq (info_get (codes "master_link_status") info) (codes "up")
    && leb_ℤ (number_of (info_get (codes "master_last_io_seconds_ago") info)) threshold

-- The problems of a node of Redis: no answer, or another role than the declared one; and a broken link.
abbrev pub redis_problems : ℤ → Str → Answer Str → ℕ
redis_problems threshold declared (inr e) = 1
redis_problems threshold declared (inl out) =
    let info = parse_redis_info out in
    let role = info_get (codes "role") info in
    one_if (not (str_eq role declared))
    + one_if (str_eq role (codes "slave") && not (is_linked threshold info))

pub master-warns :
    (ip : Str) (o : Option Failure) (a : Answer ℤ)
    → count_status is_warn (check_master (master_after ip o a)) ≡ one_if (not (is_writable o a))
unfolding check_master master_after failed_master master_of make_result count_status count_if str_eq
master-warns ip (some e) a = ground arith
master-warns ip none (inl v) = ground arith
master-warns ip none (inr e) = ground arith

pub bad_grade : str_eq (codes "critical") (codes "ok") ≡ false
unfolding str_eq
bad_grade = refl

pub warn_grade : str_eq (codes "warn") (codes "ok") ≡ false
unfolding str_eq
warn_grade = refl

pub not_ltb : (a b : ℤ) → leb_ℤ b a ≡ not (ltb_ℤ a b)
not_ltb a b = ground arith

pub grade-healthy :
    (threshold lag : ℤ) (io sql : Str)
    → str_eq (slave_grade threshold io sql lag) (codes "ok")
      ≡ (str_eq io (codes "Yes") && str_eq sql (codes "Yes") && leb_ℤ lag threshold)
unfolding slave_grade
grade-healthy threshold lag io sql =
    ground (arith, bad_grade, warn_grade, str_eq_refl (codes "ok"), not_ltb threshold lag)

pub slave-warns :
    (thr ip : Str) (threshold : ℤ) (o : Option Failure) (a : Answer (Dict Str))
    → count_status is_warn (check_slave thr (slave_after threshold ip o a))
      ≡ one_if (is_failing threshold o a)
unfolding check_slave slave_after failed_slave slave_of replication_of is_replicating make_result
    count_status count_if str_eq
slave-warns thr ip threshold (some e) a = refl
slave-warns thr ip threshold none (inr e) = refl
slave-warns thr ip threshold none (inl []) = refl
slave-warns thr ip threshold none (inl (c ∷ row)) = ground (
  arith,
  grade-healthy threshold
      (lag_of
        (pick_first (c ∷ row) (codes "Seconds_Behind_Master" ∷ codes "Seconds_Behind_Source" ∷ [])))
      (slave_io (c ∷ row)) (slave_sql (c ∷ row)),
)
