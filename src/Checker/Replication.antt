-- ===== src/Checker/Replication.antt =====
-- CheckReplication of checker/rules.go.
use weops_inspect.Prelude.{
  Bool, not, ◌&&◌, Option, none, some, List, [], ◌∷◌, ◌++◌, if◌then◌else◌, Str, codes, str_eq,
}
use weops_inspect.Decimal.{itoa}
use weops_inspect.Model.{
  CheckStatus, CheckResult, MySqlMasterStatus, MySqlSlaveStatus, RedisReplicationStatus,
  ReplicationReport,
}
use weops_inspect.Config.Types.{Thresholds}
use weops_inspect.Checker.Host.{make_result}
use weops_inspect.Checker.Cells.{report_if, present}
use weops_inspect.Checker.Host.{warn_if}

-- OK where the collector says "ok", and Warn elsewhere.
abbrev pub graded : Str → CheckStatus
graded s = warn_if (not (str_eq s (codes "ok")))

unfoldable pub check_master : MySqlMasterStatus → List CheckResult
unfolding make_result
check_master m =
    make_result (codes "mysql_master(" ++ m.ip ++ codes ").read_only")
      (if m.read_only then codes "ON" else codes "OFF") (graded m.status) []
    ∷ []

unfoldable pub check_slave : Str → MySqlSlaveStatus → List CheckResult
unfolding make_result itoa
check_slave lag_thr s = elim s.replication [
  | none ↦ []
  | some r ↦
      make_result (codes "mysql_slave(" ++ s.ip ++ codes ").replication")
        (r.io_running
          ++ codes "/"
          ++ r.sql_running
          ++ codes " lag="
          ++ itoa r.seconds_behind_master
          ++ codes "s")
        (graded r.status) lag_thr
      ∷ []
]

-- n.Role == "slave" && n.LinkStatus != "" && n.LinkStatus != "N/A"
unfoldable pub has_link : RedisReplicationStatus → Bool
has_link n =
    str_eq n.role (codes "slave")
    && present n.link_status
    && not (str_eq n.link_status (codes "N/A"))

unfoldable pub check_replica : Str → RedisReplicationStatus → List CheckResult
unfolding make_result itoa has_link report_if
check_replica io_thr n =
    make_result (codes "redis(" ++ n.ip ++ codes ").role") n.role (graded n.role_consistency_status)
      []
    ∷ report_if (has_link n) (
        make_result (codes "redis(" ++ n.ip ++ codes ").link")
          (n.master_link_status ++ codes " io=" ++ itoa n.master_last_io_seconds ++ codes "s")
          (graded n.link_status) io_thr)

-- A loop that only reads the elements.
unfoldable pub over : {A : Type 0} → (A → List CheckResult) → List A → List CheckResult
over f [] = []
over f (x ∷ xs) = f x ++ over f xs

unfoldable pub check_replication :
    {F : Type 0} → Thresholds F → Option ReplicationReport → List CheckResult
unfolding check_master check_slave check_replica over
check_replication t none = []
check_replication t (some rep) =
    over check_master rep.mysql_masters
    ++ over (check_slave (codes "lag > " ++ itoa t.mysql_repl_lag_sec ++ codes "s"))
        rep.mysql_slaves
    ++ over (check_replica (codes "io > " ++ itoa t.redis_repl_io_sec ++ codes "s")) rep.redis_nodes
