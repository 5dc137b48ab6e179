-- ===== src/Config/Types.antt =====
-- The structs of config/config.go.
use weops_inspect.Prelude.{Bool, List, ℤ, Str}

pub record ModuleHosts : Type 0 where
  pub module_name : Str
  pub ips : List Str

pub record BkMonitorV3DepConfig : Type 0 where
  pub redis_host : Str
  pub redis_port : Str
  pub redis_password : Str
  pub mysql_host : Str
  pub mysql_port : Str
  pub mysql_user : Str
  pub mysql_password : Str
  pub rabbitmq_host : Str
  pub rabbitmq_port : Str
  pub rabbitmq_user : Str
  pub rabbitmq_password : Str
  pub rabbitmq_vhost : Str
  pub zk_host : Str
  pub zk_port : Str
  pub es7_host : Str
  pub es7_rest_port : Str
  pub es7_user : Str
  pub es7_password : Str
  pub influxdb_host : Str
  pub influxdb_port : Str

pub record Credentials : Type 0 where
  pub mysql_user : Str
  pub mysql_password : Str
  pub redis_password : Str
  pub mongodb_user : Str
  pub mongodb_password : Str
  pub es7_password : Str
  pub rabbitmq_user : Str
  pub rabbitmq_password : Str

pub record Thresholds (F : Type 0) : Type 0 where
  pub cpu_usage : F
  pub disk_usage : F
  pub inode_usage : F
  pub mem_usage : F
  pub max_open_files : ℤ
  pub mysql_repl_lag_sec : ℤ
  pub redis_repl_io_sec : ℤ
  pub rabbitmq_queue_backlog : ℤ
  pub rabbitmq_no_consumer_vhost_blacklist : List Str
  pub es_heap_percent : ℤ
  pub es_ram_percent : ℤ
  pub es_unassigned_shards : ℤ
  pub redis_celery_queue : ℤ
  pub redis_monitor_queue : ℤ
  pub service_containers_exited : ℤ

-- The lists of host addresses, by the part of the platform that they deploy.
pub record Addresses : Type 0 where
  pub paas_ips : List Str
  pub cmdb_ips : List Str
  pub job_ips : List Str
  pub gse_ips : List Str
  pub appo_ips : List Str
  pub appt_ips : List Str
  pub iam_ips : List Str
  pub user_mgr_ips : List Str
  pub node_man_ips : List Str
  pub monitor_v3_ips : List Str
  pub monitor_v3_monitor_ips : List Str
  pub monitor_v3_influxdb_proxy_ips : List Str
  pub monitor_v3_transfer_ips : List Str
  pub monitor_v3_unify_query_ips : List Str
  pub es7_ips : List Str
  pub mysql_ips : List Str
  pub mysql_master_ips : List Str
  pub mysql_slave_ips : List Str
  pub redis_ips : List Str
  pub redis_master_ips : List Str
  pub redis_slave_ips : List Str
  pub redis_sentinel_ips : List Str
  pub mongodb_ips : List Str
  pub rabbitmq_ips : List Str

-- The struct Config; its address lists, which Load reads together, are a record of their own.
pub record Config (F : Type 0) : Type 0 where
  pub addresses : Addresses
  pub mysql_port : Str
  pub redis_port : Str
  pub mongodb_port : Str
  pub mongo_rs_name : Str
  pub bk_monitor_v3 : BkMonitorV3DepConfig
  pub all_hosts : List Str
  pub creds : Credentials
  pub thresholds : Thresholds F
  pub ssh_user : Str
  pub ssh_port : ℤ
  pub ssh_key_path : Str
  pub ssh_use_sudo : Bool
  pub ssh_timeout : ℤ
  pub rabbitmq_api_timeout_sec : ℤ
  pub output_dir : Str
  pub check_mount_path : Str
  pub disk_include_nfs : Bool
