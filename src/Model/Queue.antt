-- ===== src/Model/Queue.antt =====
-- model/types.go: Redis, its sentinels, and RabbitMQ.
use weops_inspect.Prelude.{Str, ℤ, List, Bool}
use weops_inspect.Model.Check.{CheckStatus}

pub record RedisNode : Type 0 where
  pub ip : Str
  pub role : Str
  pub cluster_enabled : Str
  pub version : Str
  pub used_memory : Str
  pub max_memory : Str
  pub uptime_days : Str
  pub connected_clients : Str
  pub blocked_clients : Str
  pub celery_queue : ℤ
  pub monitor_queue : ℤ
  pub error : Str
  pub error_class : Str
  pub celery_queue_status : CheckStatus
  pub monitor_queue_status : CheckStatus
  pub error_status : CheckStatus

pub record SentinelNodeStatus : Type 0 where
  pub ip : Str
  pub port : Str
  pub reachable : Bool
  pub error : Str
  pub error_class : Str
  pub render_status : CheckStatus

pub record SentinelClusterStatus : Type 0 where
  pub master_name : Str
  pub sentinels : List SentinelNodeStatus
  pub discovered_master : Str
  pub master_reachable : Bool
  pub status : Str
  pub master_env_match : Str
  pub error : Str
  pub error_class : Str
  pub master_reachable_status : CheckStatus
  pub master_env_match_status : CheckStatus
  pub overall_status : CheckStatus

pub record RabbitMqAlarm : Type 0 where
  pub node : Str
  pub mem_alarm : Bool
  pub disk_free_alarm : Bool
  pub mem_status : CheckStatus
  pub disk_free_status : CheckStatus

pub record RabbitMqQueue : Type 0 where
  pub vhost : Str
  pub queue : Str
  pub message_count : ℤ
  pub consumers : ℤ
  pub durable : Bool
  pub message_status : CheckStatus
  pub consumer_status : CheckStatus

pub record RabbitMqVhostSummary : Type 0 where
  pub vhost : Str
  pub queues : ℤ
  pub messages : ℤ
  pub consumers : ℤ

pub record RabbitMqStatus : Type 0 where
  pub cluster_partition : Bool
  pub uptime : Str
  pub total_connections : ℤ
  pub abnormal_connections : ℤ
  pub total_channels : ℤ
  pub node_alarms : List RabbitMqAlarm
  pub vhost_summary : List RabbitMqVhostSummary
  pub exceeding_queues : List RabbitMqQueue
  pub no_consumer_queues : List RabbitMqQueue
  pub queues_error : Str
  pub error : Str
  pub error_class : Str
  pub partition_status : CheckStatus
  pub abnormal_conn_status : CheckStatus
