-- ===== src/Inspect.antt =====
-- main.go: one inspection, from what the collectors return to the report and its summary, and
-- CrossCheckSentinelMaster of collector/replication.go, which it calls in between. The collectors
-- themselves talk to hosts and services; what they return is a record.
pub mod Totals
pub mod Run
pub mod Gather
use weops_inspect.Prelude.{
  ℕ, zero, suc, ◌+◌, ◌-◌, ◌*◌, ◌/◌, ◌%◌, ◌^◌, ◌≤◌, ◌<◌, ◌≡◌, refl, sym, ap, ◌∙◌, ◌≢◌, ◌↔◌, ◌⊎◌, inl,
  inr, Bool, true, false, not, ◌&&◌, ◌||◌, Option, none, some, List, [], ◌∷◌, ◌++◌, map, arith, ltb,
  leb, ◌==◌, if◌then◌else◌, ltb→lt, lt→ltb, leb→le, ==_iff, tests, Bool-cases, Option-cases, length,
  length-append, filter, any, all, take, drop, replicate, is_empty, filter-true, count_if,
  length-filter, count_if-append, any-append, all-append, ℤ, pos, negsuc, pos_part, neg_part, sub_ℕ,
  ◌≤ℤ◌, ltb_ℤ, leb_ℤ, eqb_ℤ, succ_int, Str, codes, str_eq, str_eq_iff, str_eq_refl, str_eq_sym,
  str_lt, str_lt_irrefl, str_lt_trans, str_lt_total, Dict, lookup, insert, lookup-insert, get_or,
  FloatOps,
}
use weops_inspect.Model.{
  CheckStatus, is_warn, CheckResult, HostMetrics, HostCheckResult, ServiceModule, ServiceStatus,
  DependencyResult, BkMonitorV3Section, EsCluster, MySqlCluster, ReplicationReport, MongoCluster,
  RedisNode, SentinelClusterStatus, RabbitMqStatus, InspectReport,
}
use weops_inspect.Config.Types.{Thresholds}
use weops_inspect.Prelude.Strings.{contains}
use weops_inspect.Checker.Summary.{count_status, summarize, summarize_counts}
use weops_inspect.Checker.Host.{check_host}
use weops_inspect.Checker.Cells.{each, count_status-append}
use weops_inspect.Checker.Service.{
  check_service, check_service_containers, check_service_collect_error,
}
use weops_inspect.Checker.Es.{check_es}
use weops_inspect.Checker.Redis.{check_redis, check_redis_sentinel}
use weops_inspect.Checker.Mongo.{check_mongo}
use weops_inspect.Checker.RabbitMq.{check_rabbitmq}
use weops_inspect.Checker.BkDeps.{check_bk_deps}
use weops_inspect.Checker.Replication.{check_replication}

-- What the collectors return, with the time at which the inspection starts. The services are in the
-- order of the loop over their map.
pub record Collected (F : Type 0) : Type 0 where
  pub timestamp : Str
  pub hosts : List (HostMetrics F)
  pub services : Dict (List ServiceStatus)
  pub es : List (EsCluster F)
  pub mysql : List MySqlCluster
  pub redis_standalone : List RedisNode
  pub redis_sentinel : Option SentinelClusterStatus
  pub mongodb : List MongoCluster
  pub rabbitmq : Option RabbitMqStatus
  pub replication : Option ReplicationReport
  pub bk_deps : Option (List DependencyResult)

-- ip[:i] for the last ":" in it, if that is not at the start.
unfoldable pub cut_last : Str → Option Str
cut_last [] = none
cut_last (c ∷ s) = elim (cut_last s) [
  | some rest ↦ some (c ∷ rest)
  | none ↦ if c == b':' then some [] else none
]

unfoldable pub strip_port : Str → Str
unfolding cut_last
strip_port s = elim (cut_last s) [ none ↦ s | some host ↦ if is_empty host then s else host ]

-- MasterEnvMatch of a discovered master.
unfoldable pub env_match : Str → List Str → Str
unfolding strip_port contains
env_match discovered master_ips =
    if is_empty master_ips
    then codes "N/A"
    else if is_empty discovered
    then codes "warn"
    else if contains (strip_port discovered) master_ips
    then codes "ok"
    else codes "warn"

unfoldable pub cross_check_sentinel_master :
    Option SentinelClusterStatus → List Str → Option SentinelClusterStatus
unfolding env_match
cross_check_sentinel_master none master_ips = none
cross_check_sentinel_master (some s) master_ips =
    some (record s { master_env_match = env_match s.discovered_master master_ips })

-- `if deps != nil`
unfoldable pub section_of : Option (List DependencyResult) → Option BkMonitorV3Section
section_of none = none
section_of (some deps) = some (record { dependencies = deps })

module _ {F : Type 0} (t : Thresholds F) where
  -- One status of a module: the modules of the host are coloured, and then the containers.
  unfoldable pub check_status : Str → ServiceStatus → ServiceStatus × List CheckResult
  unfolding check_service check_service_containers check_service_collect_error each
  check_status module_key s =
      let modules = each (λ sm. check_service sm module_key) s.services in
      let (after, exited) = check_service_containers t (record s { services = modules.0 }) in
      (after, check_service_collect_error s ++ modules.1 ++ exited)

  -- The loop over the map of services.
  unfoldable pub check_services :
      Dict (List ServiceStatus) → Dict (List ServiceStatus) × List CheckResult
  unfolding check_status each
  check_services [] = ([], [])
  check_services ((module_key, statuses) ∷ services) =
      let here = each (check_status module_key) statuses in
      let rest = check_services services in ((module_key, here.0) ∷ rest.0, here.1 ++ rest.1)

module _ {F : Type 0} ⦃fl : FloatOps F⦄ (t : Thresholds F) where
  -- The loop over the hosts.
  unfoldable pub check_hosts : List (HostMetrics F) → List (HostCheckResult F) × List CheckResult
  unfolding check_host
  check_hosts [] = ([], [])
  check_hosts (h ∷ hs) =
      let rest = check_hosts hs in
      (record { metrics = h; checks = check_host h t } ∷ rest.0, check_host h t ++ rest.1)

  -- The report, with its checks in the order in which main appends them.
  unfoldable pub inspect : List Str → Collected F → InspectReport F
  unfolding check_hosts check_services cross_check_sentinel_master section_of check_es check_redis
      check_redis_sentinel check_mongo check_rabbitmq check_bk_deps check_replication summarize
  inspect master_ips c =
      let hosts = check_hosts c.hosts in
      let services = check_services t c.services in
      let es = check_es t c.es in
      let redis = check_redis t c.redis_standalone in
      let sentinel =
        check_redis_sentinel (cross_check_sentinel_master c.redis_sentinel master_ips) in
      let mongo = check_mongo c.mongodb in
      let rabbitmq = check_rabbitmq t c.rabbitmq in
      let deps = check_bk_deps (section_of c.bk_deps) in
      let checks : List CheckResult =
        hosts.1
        ++ services.1
        ++ es.1
        ++ redis.1
        ++ sentinel.1
        ++ mongo.1
        ++ rabbitmq.1
        ++ deps.1
        ++ check_replication t c.replication in
      record {
        timestamp = c.timestamp;
        hosts = hosts.0;
        services = services.0;
        es = es.0;
        mysql = c.mysql;
        redis_standalone = redis.0;
        redis_sentinel = sentinel.0;
        mongodb = mongo.0;
        rabbitmq = rabbitmq.0;
        replication = c.replication;
        bk_monitor_v3 = deps.0;
        summary = summarize checks;
        all_checks = checks;
      }
