-- ===== src/Examples/Rules.antt =====
-- The rules on hosts and components.
use weops_inspect.Prelude.{
  ℕ, ◌+◌, ◌≡◌, refl, true, false, none, some, [], ◌∷◌, map, filter, all, count_if, pos, Str, codes,
}
use weops_inspect.Model.{
  unset, is_warn, HostMetrics, ServiceModule, ServiceStatus, DependencyResult, BkMonitorV3Section,
  EsCluster, MongoCluster, RedisNode, SentinelClusterStatus, RabbitMqStatus,
}
use weops_inspect.Checker.Summary.{count_status}
use weops_inspect.Checker.Cells.{gather, is_flagged, statuses, sum_of, present}
use weops_inspect.Checker.Es.{check_es}
use weops_inspect.Checker.Redis.{check_redis_sentinel}
use weops_inspect.Checker.RabbitMq.{check_rabbitmq_status, check_rabbitmq}
use weops_inspect.Checker.Replication.{check_replication}
use weops_inspect.Checker.Colours.{rabbitmq_cells, check_rabbitmq_status-cells}
use weops_inspect.Checker.Colours.Es.{es_cells, is_fresh, is_failed, warned, check_es-cells}
use weops_inspect.Checker.Severity.{es_warnings}
use weops_inspect.Inspect.{Collected, check_services, cross_check_sentinel_master, inspect}
use weops_inspect.Inspect.Totals.{host_warnings, inspect_warnings}
use weops_inspect.Examples.{whole, thresholds, host_with}

abbrev host : HostMetrics ℕ
host = host_with (codes "10.0.0.1") 99

abbrev cluster : EsCluster ℕ
cluster = record {
  instance_name = [];
  cluster_name = codes "es7";
  status = codes "yellow";
  number_of_nodes = pos 1;
  number_of_data_nodes = pos 1;
  active_primary_shards = pos 5;
  active_shards = pos 5;
  unassigned_shards = pos 2;
  pending_tasks = pos 0;
  active_shards_percent = 71;
  nodes =
      record {
        ip = codes "10.0.0.2";
        heap_percent = pos 90;
        ram_percent = pos 50;
        cpu = pos 3;
        load_1m = 0;
        load_5m = 0;
        load_15m = 0;
        role = codes "dim";
        heap_status = unset;
        ram_status = unset;
      }
      ∷ [];
  node_reachability =
      record {
        ip = codes "10.0.0.3";
        status = codes "unreachable";
        detail = [];
        render_status = unset;
      }
      ∷ [];
  error = [];
  error_class = [];
  health_status = unset;
  unassigned_status = unset;
  pending_status = unset;
}

-- A cluster that could not be collected.
abbrev failed_cluster : EsCluster ℕ
failed_cluster = record cluster { error = codes "curl: (7)" }

clusters_fresh : all is_fresh (cluster ∷ failed_cluster ∷ []) ≡ true
unfolding all
clusters_fresh = refl

check_es-cells_example :
    (statuses (check_es thresholds (cluster ∷ failed_cluster ∷ [])).1
      ≡ filter is_flagged (gather es_cells (check_es thresholds (cluster ∷ failed_cluster ∷ [])).0))
    × (filter is_failed (check_es thresholds (cluster ∷ failed_cluster ∷ [])).0
        ≡ map warned (filter is_failed (cluster ∷ failed_cluster ∷ [])))
check_es-cells_example = check_es-cells thresholds (cluster ∷ failed_cluster ∷ []) clusters_fresh

abbrev redis : RedisNode
redis = record {
  ip = codes "10.0.0.4";
  role = codes "master";
  cluster_enabled = [];
  version = [];
  used_memory = [];
  max_memory = [];
  uptime_days = [];
  connected_clients = [];
  blocked_clients = [];
  celery_queue = pos 2000;
  monitor_queue = pos 5;
  error = codes "timeout";
  error_class = [];
  celery_queue_status = unset;
  monitor_queue_status = unset;
  error_status = unset;
}

abbrev sentinels : SentinelClusterStatus
sentinels = record {
  master_name = codes "mymaster";
  sentinels =
      record {
        ip = codes "10.0.0.5";
        port = codes "26379";
        reachable = false;
        error = [];
        error_class = [];
        render_status = unset;
      }
      ∷ [];
  discovered_master = codes "10.0.0.4:6379";
  master_reachable = true;
  status = codes "warn";
  master_env_match = codes "ok";
  error = [];
  error_class = [];
  master_reachable_status = unset;
  master_env_match_status = unset;
  overall_status = unset;
}

abbrev rabbitmq : RabbitMqStatus
rabbitmq = record {
  cluster_partition = false;
  uptime = [];
  total_connections = pos 10;
  abnormal_connections = pos 1;
  total_channels = pos 10;
  node_alarms =
      record {
        node = codes "rabbit@a";
        mem_alarm = true;
        disk_free_alarm = false;
        mem_status = unset;
        disk_free_status = unset;
      }
      ∷ [];
  vhost_summary = [];
  exceeding_queues =
      record {
        vhost = codes "bk";
        queue = codes "celery";
        message_count = pos 20000;
        consumers = pos 1;
        durable = true;
        message_status = unset;
        consumer_status = unset;
      }
      ∷ [];
  no_consumer_queues = [];
  queues_error = [];
  error = [];
  error_class = [];
  partition_status = unset;
  abnormal_conn_status = unset;
}

check_rabbitmq_status-cells_example :
    statuses (check_rabbitmq_status (pos 10000) rabbitmq).1
    ≡ filter is_flagged (rabbitmq_cells (check_rabbitmq_status (pos 10000) rabbitmq).0)
check_rabbitmq_status-cells_example = check_rabbitmq_status-cells (pos 10000) rabbitmq

abbrev mongo : MongoCluster
mongo = record {
  instance_name = codes "rs0";
  members =
      record {
        name = codes "10.0.0.6";
        health = pos 0;
        state_str = codes "DOWN";
        uptime = pos 0;
        syncing_to = [];
        sync_source_host = [];
        health_status = unset;
      }
      ∷ [];
  error = [];
  error_class = [];
}

abbrev dependency : Str → DependencyResult
dependency status = record {
  item = codes "kafka";
  endpoint = [];
  status = status;
  detail = [];
  render_status = unset;
}

abbrev deps : BkMonitorV3Section
deps = record {
  dependencies =
      dependency (codes "ok") ∷ dependency (codes "skip") ∷ dependency (codes "fail") ∷ [];
}

abbrev paas : ServiceModule
paas = record {
  module_name = codes "paas";
  status = [];
  resolved = [];
  healthz_api = codes "bad";
  main_pid = pos 0;
  start_time = [];
  workers = pos 0;
  render_status = unset;
  healthz_render_status = unset;
}

abbrev service : ServiceStatus
service = record {
  host_ip = codes "10.0.0.1";
  module_name = codes "paas";
  services = paas ∷ [];
  containers_up = pos 3;
  containers_exited = pos 1;
  exited_render_status = unset;
  error = codes "timeout";
}

abbrev collected : Collected ℕ
collected = record {
  timestamp = codes "2026-05-08 21:00:00";
  hosts = host ∷ [];
  services = (codes "paas", service ∷ []) ∷ [];
  es = cluster ∷ [];
  mysql = [];
  redis_standalone = redis ∷ [];
  redis_sentinel = some sentinels;
  mongodb = mongo ∷ [];
  rabbitmq = some rabbitmq;
  replication = none;
  bk_deps = some deps.dependencies;
}

inspect_warnings_example :
    (inspect ⦃fl = whole⦄ thresholds (codes "10.0.0.4" ∷ []) collected).summary.warn_count
    ≡ sum_of (host_warnings ⦃fl = whole⦄ thresholds) collected.hosts
      + count_status is_warn (check_services thresholds collected.services).1
      + sum_of es_warnings collected.es
      + count_if (λ n. present n.error) collected.redis_standalone
      + count_status is_warn
          (check_redis_sentinel
            (cross_check_sentinel_master (some sentinels) (codes "10.0.0.4" ∷ []))).1
      + count_if (λ m. present m.error) collected.mongodb
      + count_status is_warn (check_rabbitmq thresholds (some rabbitmq)).1
      + count_status is_warn (check_replication thresholds none)
inspect_warnings_example =
    inspect_warnings ⦃fl = whole⦄ thresholds (codes "10.0.0.4" ∷ []) collected
