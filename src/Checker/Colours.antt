-- ===== src/Checker/Colours.antt =====
-- checker/: the cells that the rules colour, and the results that they return.
pub mod Es
use weops_inspect.Prelude.{
  ◌≡◌, refl, Bool, true, false, some, List, [], ◌∷◌, ◌++◌, arith, if◌then◌else◌, filter, all, ℤ,
  Str, codes,
}
use weops_inspect.Model.{
  CheckStatus, warn, CheckResult, is_unset, ServiceModule, DependencyResult, BkMonitorV3Section,
  EsNode, EsNodeReach, EsCluster, MongoMember, MongoCluster, RedisNode, SentinelNodeStatus,
  SentinelClusterStatus, RabbitMqAlarm, RabbitMqQueue, RabbitMqStatus,
}
use weops_inspect.Decimal.{itoa}
use weops_inspect.Config.Types.{Thresholds}
use weops_inspect.Checker.Host.{make_result}
use weops_inspect.Checker.Cells.{
  report_if, flag_if, present, each, gather, is_flagged, is_coloured, statuses, statuses-append,
  filter-append, each-cells, each-cells-where,
}
use weops_inspect.Checker.Es.{
  check_es_node, check_es_reach, not_green, health_of, check_collected, check_one_es_cluster,
  check_es, es_prefix,
}
use weops_inspect.Checker.Mongo.{check_member, check_mongo_cluster, check_mongo, mongo_prefix}
use weops_inspect.Checker.Redis.{
  check_redis_node, check_redis, check_sentinel, env_match_status, check_sentinel_cluster,
}
use weops_inspect.Checker.RabbitMq.{
  check_alarm, check_exceeding, check_no_consumer, check_rabbitmq_status,
}
use weops_inspect.Checker.BkDeps.{check_dependency, check_bk_deps}
use weops_inspect.Checker.Service.{check_service, module_status, healthz_status, healthz_results}

-- A collection error has no cell, and is shown as text.
abbrev pub error_mark : Str → List CheckStatus
error_mark e = if present e then warn ∷ [] else []

abbrev pub redis_cells : RedisNode → List CheckStatus
redis_cells n = n.error_status ∷ n.celery_queue_status ∷ n.monitor_queue_status ∷ []

redis_node-cells :
    {F : Type 0} (t : Thresholds F) (n : RedisNode)
    → statuses (check_redis_node t n).1 ≡ filter is_flagged (redis_cells (check_redis_node t n).0)
unfolding check_redis_node filter report_if flag_if make_result
redis_node-cells t n = ground arith

-- CheckRedis returns one result for each cell that it colours Warn or Notice, with the same status
-- and in the same order, and none for the others.
pub check_redis-cells :
    {F : Type 0} (t : Thresholds F) (nodes : List RedisNode)
    → let r = check_redis t nodes in statuses r.1 ≡ filter is_flagged (gather redis_cells r.0)
unfolding check_redis
check_redis-cells t nodes =
    each-cells is_flagged redis_cells (check_redis_node t) (redis_node-cells t) nodes

abbrev pub sentinel_cells : SentinelNodeStatus → List CheckStatus
sentinel_cells n = n.render_status ∷ []

sentinel-cells :
    (n : SentinelNodeStatus)
    → statuses (check_sentinel n).1 ≡ filter is_flagged (sentinel_cells (check_sentinel n).0)
unfolding check_sentinel filter report_if flag_if make_result
sentinel-cells n = ground arith

abbrev pub sentinel_cluster_cells : SentinelClusterStatus → List CheckStatus
sentinel_cluster_cells s =
    error_mark s.error
    ++ s.master_reachable_status
      ∷ s.master_env_match_status
      ∷ s.overall_status
      ∷ gather sentinel_cells s.sentinels

-- CheckRedisSentinel returns one result for the error, if there is one, and for each cell that it
-- colours as a problem, in the same order, and none for the others.
pub check_sentinel_cluster-cells :
    (s : SentinelClusterStatus)
    → let r = check_sentinel_cluster s in
      statuses r.1 ≡ filter is_flagged (sentinel_cluster_cells r.0)
unfolding check_sentinel_cluster env_match_status filter report_if flag_if make_result
check_sentinel_cluster-cells s =
    ground (arith, each-cells is_flagged sentinel_cells check_sentinel sentinel-cells s.sentinels)

abbrev pub alarm_cells : RabbitMqAlarm → List CheckStatus
alarm_cells a = a.mem_status ∷ a.disk_free_status ∷ []

alarm-cells :
    (a : RabbitMqAlarm)
    → statuses (check_alarm a).1 ≡ filter is_flagged (alarm_cells (check_alarm a).0)
unfolding check_alarm filter report_if flag_if make_result
alarm-cells a = ground arith

abbrev pub backlog_cells : RabbitMqQueue → List CheckStatus
backlog_cells q = q.message_status ∷ []

backlog-cells :
    (thr : _) (q : RabbitMqQueue)
    → statuses (check_exceeding thr q).1
      ≡ filter is_flagged (backlog_cells (check_exceeding thr q).0)
unfolding check_exceeding filter make_result
backlog-cells thr q = refl

abbrev pub consumer_cells : RabbitMqQueue → List CheckStatus
consumer_cells q = q.consumer_status ∷ []

consumer-cells :
    (q : RabbitMqQueue)
    → statuses (check_no_consumer q).1 ≡ filter is_flagged (consumer_cells (check_no_consumer q).0)
unfolding check_no_consumer filter make_result
consumer-cells q = refl

abbrev pub rabbitmq_cells : RabbitMqStatus → List CheckStatus
rabbitmq_cells r =
    error_mark r.error
    ++ error_mark r.queues_error
    ++ r.partition_status
      ∷ r.abnormal_conn_status
      ∷ (gather alarm_cells r.node_alarms
          ++ gather backlog_cells r.exceeding_queues
          ++ gather consumer_cells r.no_consumer_queues)

append-cells :
    (rs ss : List CheckResult) (cs ds : List CheckStatus)
    → statuses rs ≡ filter is_flagged cs
    → statuses ss ≡ filter is_flagged ds
    → statuses (rs ++ ss) ≡ filter is_flagged (cs ++ ds)
append-cells rs ss cs ds h g = rw (statuses-append rs ss, filter-append is_flagged cs ds, h, g)

rabbitmq_lists-cells :
    (thr : Str) (alarms : List RabbitMqAlarm) (exceeding idle : List RabbitMqQueue)
    → statuses (
        (each check_alarm alarms).1
        ++ (each (check_exceeding thr) exceeding).1
        ++ (each check_no_consumer idle).1)
      ≡ filter is_flagged (
          gather alarm_cells (each check_alarm alarms).0
          ++ gather backlog_cells (each (check_exceeding thr) exceeding).0
          ++ gather consumer_cells (each check_no_consumer idle).0)
rabbitmq_lists-cells thr alarms exceeding idle =
    let a = each check_alarm alarms in
    let e = each (check_exceeding thr) exceeding in
    let i = each check_no_consumer idle in
    append-cells (a.1 ++ e.1) i.1 (gather alarm_cells a.0 ++ gather backlog_cells e.0)
      (gather consumer_cells i.0)
      (append-cells a.1 e.1 (gather alarm_cells a.0) (gather backlog_cells e.0)
        (each-cells is_flagged alarm_cells check_alarm alarm-cells alarms)
        (each-cells is_flagged backlog_cells (check_exceeding thr) (backlog-cells thr) exceeding))
      (each-cells is_flagged consumer_cells check_no_consumer consumer-cells idle)

-- CheckRabbitMQ returns one result for each of the two errors that is set, and for each cell that
-- it colours as a problem, in the same order, and none for the others.
pub check_rabbitmq_status-cells :
    (backlog : ℤ) (r : RabbitMqStatus)
    → let after = check_rabbitmq_status backlog r in
      statuses after.1 ≡ filter is_flagged (rabbitmq_cells after.0)
unfolding check_rabbitmq_status filter report_if flag_if make_result
check_rabbitmq_status-cells backlog r = ground (
  arith,
  rabbitmq_lists-cells (codes "> " ++ itoa backlog ++ codes " msgs") r.node_alarms
      r.exceeding_queues r.no_consumer_queues,
)

abbrev pub member_cells : MongoMember → List CheckStatus
member_cells m = m.health_status ∷ []

member-cells :
    (prefix : Str) (m : MongoMember)
    → statuses (check_member prefix m).1
      ≡ filter is_flagged (member_cells (check_member prefix m).0)
unfolding check_member filter report_if flag_if make_result
member-cells prefix m = ground arith

-- The members of a cluster that could not be collected are not looked at.
abbrev pub mongo_cells : MongoCluster → List CheckStatus
mongo_cells c = if present c.error then warn ∷ [] else gather member_cells c.members

mongo_cluster-cells :
    (c : MongoCluster)
    → statuses (check_mongo_cluster c).1 ≡ filter is_flagged (mongo_cells (check_mongo_cluster c).0)
unfolding check_mongo_cluster filter make_result
mongo_cluster-cells c = ground (
  arith,
  each-cells is_flagged member_cells (check_member (mongo_prefix c)) (member-cells (mongo_prefix c))
      c.members,
)

-- CheckMongo returns, for a cluster with an error, one Warn, and else one Notice for each member
-- that it colours Notice, in the same order, and none for the others.
pub check_mongo-cells :
    (clusters : List MongoCluster)
    → let r = check_mongo clusters in statuses r.1 ≡ filter is_flagged (gather mongo_cells r.0)
unfolding check_mongo
check_mongo-cells clusters =
    each-cells is_flagged mongo_cells check_mongo_cluster mongo_cluster-cells clusters

abbrev pub dependency_cells : DependencyResult → List CheckStatus
dependency_cells d = d.render_status ∷ []

dependency-cells :
    (d : DependencyResult)
    → statuses (check_dependency d).1 ≡ filter is_coloured (dependency_cells (check_dependency d).0)
unfolding check_dependency filter make_result
dependency-cells d = ground arith

-- CheckBKDeps returns one result for each dependency that it colours, the OK ones included, with
-- the same status and in the same order, and none for those that were skipped.
pub check_bk_deps-cells :
    (s : BkMonitorV3Section)
    → let r = check_bk_deps (some s) in
      (r.0 ≡ some (record { dependencies = (each check_dependency s.dependencies).0 }))
      × (statuses r.1
          ≡ filter is_coloured (gather dependency_cells (each check_dependency s.dependencies).0))
unfolding check_bk_deps
check_bk_deps-cells s =
    (refl, each-cells is_coloured dependency_cells check_dependency dependency-cells s.dependencies)

-- CheckService returns one result for each of the two cells of a module that it colours, with the
-- same status and in the same order; and it always colours the first one.
pub check_service-cells :
    (sm : ServiceModule) (module_key : Str)
    → let r = check_service sm module_key in
      (statuses r.1 ≡ filter is_coloured (r.0.render_status ∷ r.0.healthz_render_status ∷ []))
      × (is_coloured r.0.render_status ≡ true)
unfolding check_service module_status healthz_status healthz_results filter make_result
check_service-cells sm module_key = ground arith
