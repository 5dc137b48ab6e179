-- ===== src/Checker/Redis.antt =====
-- checker/redis.go: the rules for Redis and its sentinels.
use weops_inspect.Prelude.{
  not, Option, none, some, List, [], ◌++◌, if◌then◌else◌, ltb_ℤ, Str, codes, str_eq,
}
use weops_inspect.Decimal.{itoa}
use weops_inspect.Model.{
  CheckStatus, unset, ok, warn, notice, CheckResult, RedisNode, SentinelNodeStatus,
  SentinelClusterStatus,
}
use weops_inspect.Config.Types.{Thresholds}
use weops_inspect.Checker.Host.{make_result}
use weops_inspect.Checker.Cells.{report_if, flag_if, present, each}

module _ {F : Type 0} (t : Thresholds F) where
  unfoldable pub check_redis_node : RedisNode → RedisNode × List CheckResult
  unfolding flag_if report_if make_result itoa
  check_redis_node n =
      let prefix = codes "redis." ++ n.ip ++ codes "." in
      let celery = ltb_ℤ t.redis_celery_queue n.celery_queue in
      let monitor = ltb_ℤ t.redis_monitor_queue n.monitor_queue in
      (
        record n {
          error_status = if present n.error then warn else unset;
          celery_queue_status = flag_if celery notice;
          monitor_queue_status = flag_if monitor notice;
        },
        report_if (present n.error) (make_result (prefix ++ codes "error") n.error warn [])
            ++ report_if celery
                (make_result (prefix ++ codes "celery_queue") (itoa n.celery_queue) notice [])
            ++ report_if monitor
                (make_result (prefix ++ codes "monitor_queue") (itoa n.monitor_queue) notice []),
      )

  unfoldable pub check_redis : List RedisNode → List RedisNode × List CheckResult
  unfolding check_redis_node each
  check_redis = each check_redis_node

unfoldable pub check_sentinel : SentinelNodeStatus → SentinelNodeStatus × List CheckResult
unfolding flag_if report_if make_result
check_sentinel n = (
  record n { render_status = flag_if (not n.reachable) warn },
  report_if (not n.reachable)
      (make_result (codes "redis_sentinel." ++ n.ip ++ codes ".reachable") (codes "false") warn []),
)

-- switch s.MasterEnvMatch
unfoldable pub env_match_status : Str → CheckStatus
env_match_status s =
    if str_eq s (codes "warn") then warn else if str_eq s (codes "ok") then ok else unset

unfoldable pub check_sentinel_cluster :
    SentinelClusterStatus → SentinelClusterStatus × List CheckResult
unfolding flag_if report_if make_result env_match_status check_sentinel each
check_sentinel_cluster s =
    let nodes = each check_sentinel s.sentinels in
    let bad = not (str_eq s.status (codes "ok")) in
    (
      record s {
        master_reachable_status = flag_if (not s.master_reachable) warn;
        master_env_match_status = env_match_status s.master_env_match;
        overall_status = flag_if bad warn;
        sentinels = nodes.0;
      },
      report_if (present s.error) (make_result (codes "redis_sentinel.error") s.error warn [])
          ++ report_if (not s.master_reachable)
              (make_result (codes "redis_sentinel.master_reachable") (codes "false") warn [])
          ++ report_if (str_eq s.master_env_match (codes "warn"))
              (make_result (codes "redis_sentinel.master_env_match") s.master_env_match warn [])
          ++ report_if bad (make_result (codes "redis_sentinel.status") s.status warn [])
          ++ nodes.1,
    )

unfoldable pub check_redis_sentinel :
    Option SentinelClusterStatus → Option SentinelClusterStatus × List CheckResult
unfolding check_sentinel_cluster
check_redis_sentinel none = (none, [])
check_redis_sentinel (some s) =
    let (after, results) = check_sentinel_cluster s in (some after, results)
