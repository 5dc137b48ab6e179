-- ===== src/Inspect/Totals.antt =====
-- main.go: the number of warnings in the summary of a report.
use weops_inspect.Prelude.{
  ℕ, ◌+◌, ◌≡◌, refl, List, [], ◌∷◌, ◌++◌, arith, count_if, ltb_ℤ, Str, codes, FloatOps,
}
use weops_inspect.Model.{is_warn, CheckResult, HostMetrics}
use weops_inspect.Config.Types.{Thresholds}
use weops_inspect.Checker.Summary.{count_status, summarize_counts}
use weops_inspect.Checker.Host.{check_host, is_overloaded, unexpected}
use weops_inspect.Checker.Cells.{count_status-append, sum_of, one_if, present}
use weops_inspect.Checker.Es.{check_es}
use weops_inspect.Checker.Redis.{check_redis, check_redis_sentinel}
use weops_inspect.Checker.Mongo.{check_mongo}
use weops_inspect.Checker.RabbitMq.{check_rabbitmq}
use weops_inspect.Checker.BkDeps.{check_bk_deps}
use weops_inspect.Checker.Replication.{check_replication}
use weops_inspect.Checker.Severity.{
  es_warnings, over_limit, check_host-warns, check_es-warns, check_redis-warns, check_mongo-warns,
  check_bk_deps-NoWarn,
}
use weops_inspect.Inspect.{
  Collected, check_services, check_hosts, cross_check_sentinel_master, section_of, inspect,
}

nine-warns :
    (a b c d e f g h i : List CheckResult)
    → count_status is_warn (a ++ b ++ c ++ d ++ e ++ f ++ g ++ h ++ i)
      ≡ count_status is_warn a
        + count_status is_warn b
        + count_status is_warn c
        + count_status is_warn d
        + count_status is_warn e
        + count_status is_warn f
        + count_status is_warn g
        + count_status is_warn h
        + count_status is_warn i
nine-warns a b c d e f g h i = omega (
  arith,
  count_status-append is_warn (a ++ b ++ c ++ d ++ e ++ f ++ g ++ h) i,
  count_status-append is_warn (a ++ b ++ c ++ d ++ e ++ f ++ g) h,
  count_status-append is_warn (a ++ b ++ c ++ d ++ e ++ f) g,
  count_status-append is_warn (a ++ b ++ c ++ d ++ e) f,
  count_status-append is_warn (a ++ b ++ c ++ d) e,
  count_status-append is_warn (a ++ b ++ c) d,
  count_status-append is_warn (a ++ b) c,
  count_status-append is_warn a b,
)

module _ {F : Type 0} ⦃fl : FloatOps F⦄ (t : Thresholds F) where
  -- How many measures of a host are out of their bounds.
  unfoldable pub host_warnings : HostMetrics F → ℕ
  host_warnings h =
      one_if (fl.ge h.cpu_usage t.cpu_usage)
      + one_if (fl.ge h.mem_usage t.mem_usage)
      + count_if (over_limit t.disk_usage) h.disk_usage
      + count_if (over_limit t.inode_usage) h.inode_usage
      + one_if (ltb_ℤ h.max_open_files t.max_open_files)
      + one_if (unexpected h.selinux (codes "Disabled"))
      + one_if (unexpected h.firewalld (codes "inactive"))
      + one_if (unexpected h.chronyd (codes "active"))
      + one_if (is_overloaded h)

  hosts-warns :
      (hs : List (HostMetrics F))
      → count_status is_warn (check_hosts t hs).1 ≡ sum_of host_warnings hs
  unfolding check_hosts sum_of host_warnings
  hosts-warns [] = unfold count_status count_if in refl
  hosts-warns (h ∷ hs) = omega (
    arith,
    count_status-append is_warn (check_host h t) (check_hosts t hs).1,
    check_host-warns h t,
    hosts-warns hs,
  )

  -- The warnings in the summary of an inspection are the measures of the hosts that are out of
  -- bounds, the clusters and the nodes of Elasticsearch that fail, the Redis nodes and MongoDB
  -- clusters with an error, and what the rules on services, sentinels, RabbitMQ and replication
  -- warn of. The dependencies of bkmonitorv3 add none.
  pub inspect_warnings :
      (master_ips : List Str) (c : Collected F)
      → (inspect t master_ips c).summary.warn_count
        ≡ sum_of host_warnings c.hosts
          + count_status is_warn (check_services t c.services).1
          + sum_of es_warnings c.es
          + count_if (λ n. present n.error) c.redis_standalone
          + count_status is_warn
              (check_redis_sentinel (cross_check_sentinel_master c.redis_sentinel master_ips)).1
          + count_if (λ m. present m.error) c.mongodb
          + count_status is_warn (check_rabbitmq t c.rabbitmq).1
          + count_status is_warn (check_replication t c.replication)
  unfolding inspect
  inspect_warnings master_ips c = omega (
    arith,
    (summarize_counts (inspect t master_ips c).all_checks).1,
    nine-warns (check_hosts t c.hosts).1 (check_services t c.services).1 (check_es t c.es).1
        (check_redis t c.redis_standalone).1
        (check_redis_sentinel (cross_check_sentinel_master c.redis_sentinel master_ips)).1
        (check_mongo c.mongodb).1 (check_rabbitmq t c.rabbitmq).1
        (check_bk_deps (section_of c.bk_deps)).1 (check_replication t c.replication),
    hosts-warns c.hosts,
    check_es-warns t c.es,
    check_redis-warns t c.redis_standalone,
    check_mongo-warns c.mongodb,
    check_bk_deps-NoWarn (section_of c.bk_deps),
  )
