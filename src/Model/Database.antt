-- ===== src/Model/Database.antt =====
-- model/types.go: MySQL, MongoDB and the replication report.
use weops_inspect.Prelude.{Str, ℤ, List, Bool, Option}
use weops_inspect.Model.Check.{CheckStatus}

pub record MySqlNode : Type 0 where
  pub ip : Str
  pub version : Str
  pub max_connections : ℤ
  pub expire_logs_days : ℤ
  pub max_allowed_packet : ℤ
  pub role : Str
  pub binlog_count : ℤ
  pub slave_io_state : Str
  pub slave_sql_state : Str
  pub slow_query_log : Str
  pub character_set : Str
  pub buffer_pool_size : ℤ
  pub buffer_pool_instances : ℤ
  pub innodb_io_capacity : ℤ
  pub innodb_read_io_threads : ℤ
  pub innodb_write_io_threads : ℤ
  pub interactive_timeout : ℤ
  pub table_open_cache : ℤ
  pub wait_timeout : ℤ
  pub error : Str
  pub error_class : Str

pub record MySqlCluster : Type 0 where
  pub instance_name : Str
  pub nodes : List MySqlNode
  pub error : Str

pub record MySqlReplicationStatus : Type 0 where
  pub io_running : Str
  pub sql_running : Str
  pub seconds_behind_master : ℤ
  pub last_io_error : Str
  pub last_sql_error : Str
  pub master_host : Str
  pub status : Str

pub record MySqlMasterStatus : Type 0 where
  pub ip : Str
  pub read_only : Bool
  pub status : Str
  pub error : Str
  pub error_class : Str

pub record MySqlSlaveStatus : Type 0 where
  pub ip : Str
  pub replication : Option MySqlReplicationStatus
  pub error : Str
  pub error_class : Str

pub record RedisReplicationStatus : Type 0 where
  pub ip : Str
  pub role : Str
  pub master_host : Str
  pub master_port : ℤ
  pub master_link_status : Str
  pub master_last_io_seconds : ℤ
  pub master_sync_in_progress : Bool
  pub connected_slaves : ℤ
  pub role_consistency_status : Str
  pub link_status : Str
  pub error : Str
  pub error_class : Str

pub record ReplicationReport : Type 0 where
  pub mysql_masters : List MySqlMasterStatus
  pub mysql_slaves : List MySqlSlaveStatus
  pub redis_nodes : List RedisReplicationStatus

pub record MongoMember : Type 0 where
  pub name : Str
  pub health : ℤ
  pub state_str : Str
  pub uptime : ℤ
  pub syncing_to : Str
  pub sync_source_host : Str
  pub health_status : CheckStatus

pub record MongoCluster : Type 0 where
  pub instance_name : Str
  pub members : List MongoMember
  pub error : Str
  pub error_class : Str
