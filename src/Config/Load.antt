-- ===== src/Config/Load.antt =====
-- config/config.go: Load and Validate.
use weops_inspect.Prelude.{Bool, false, not, [], ◌∷◌, ◌==◌, length, pos, Str, codes, FloatOps}
use weops_inspect.Config.Types.{BkMonitorV3DepConfig, Credentials, Thresholds, Addresses, Config}
use weops_inspect.Config.Env.{
  Loaded, loaded, ◌>>=◌, Env, getenv, parse_ip_list, first_non_empty, env_or_default,
  parse_float_env, parse_int_env, blacklist_key, parse_vhost_blacklist, parse_bool_env,
}
use weops_inspect.Config.Hosts.{build_all_hosts}

unfoldable pub load_addresses : Env → Addresses
unfolding getenv parse_ip_list
load_addresses env = record {
  paas_ips = parse_ip_list (getenv env (codes "BK_PAAS_IP_COMMA"));
  cmdb_ips = parse_ip_list (getenv env (codes "BK_CMDB_IP_COMMA"));
  job_ips = parse_ip_list (getenv env (codes "BK_JOB_IP_COMMA"));
  gse_ips = parse_ip_list (getenv env (codes "BK_GSE_IP_COMMA"));
  appo_ips = parse_ip_list (getenv env (codes "BK_APPO_IP_COMMA"));
  appt_ips = parse_ip_list (getenv env (codes "BK_APPT_IP_COMMA"));
  iam_ips = parse_ip_list (getenv env (codes "BK_IAM_IP_COMMA"));
  user_mgr_ips = parse_ip_list (getenv env (codes "BK_USERMGR_IP_COMMA"));
  node_man_ips = parse_ip_list (getenv env (codes "BK_NODEMAN_IP_COMMA"));
  monitor_v3_ips = parse_ip_list (getenv env (codes "BK_MONITORV3_IP_COMMA"));
  monitor_v3_monitor_ips = parse_ip_list (getenv env (codes "BK_MONITORV3_MONITOR_IP_COMMA"));
  monitor_v3_influxdb_proxy_ips =
      parse_ip_list (getenv env (codes "BK_MONITORV3_INFLUXDB_PROXY_IP_COMMA"));
  monitor_v3_transfer_ips = parse_ip_list (getenv env (codes "BK_MONITORV3_TRANSFER_IP_COMMA"));
  monitor_v3_unify_query_ips =
      parse_ip_list (getenv env (codes "BK_MONITORV3_UNIFY_QUERY_IP_COMMA"));
  es7_ips = parse_ip_list (getenv env (codes "BK_ES7_IP_COMMA"));
  mysql_ips = parse_ip_list (getenv env (codes "BK_MYSQL_IP_COMMA"));
  mysql_master_ips = parse_ip_list (getenv env (codes "BK_MYSQL_MASTER_IP_COMMA"));
  mysql_slave_ips = parse_ip_list (getenv env (codes "BK_MYSQL_SLAVE_IP_COMMA"));
  redis_ips = parse_ip_list (getenv env (codes "BK_REDIS_IP_COMMA"));
  redis_master_ips = parse_ip_list (getenv env (codes "BK_REDIS_MASTER_IP_COMMA"));
  redis_slave_ips = parse_ip_list (getenv env (codes "BK_REDIS_SLAVE_IP_COMMA"));
  redis_sentinel_ips = parse_ip_list (getenv env (codes "BK_REDIS_SENTINEL_IP_COMMA"));
  mongodb_ips = parse_ip_list (getenv env (codes "BK_MONGODB_IP_COMMA"));
  rabbitmq_ips = parse_ip_list (getenv env (codes "BK_RABBITMQ_IP_COMMA"));
}

unfoldable pub load_bk_monitor_v3 : Env → BkMonitorV3DepConfig
unfolding getenv first_non_empty
load_bk_monitor_v3 env = record {
  redis_host = getenv env (codes "BK_MONITOR_REDIS_HOST");
  redis_port = getenv env (codes "BK_MONITOR_REDIS_PORT");
  redis_password = getenv env (codes "BK_MONITOR_REDIS_PASSWORD");
  mysql_host = first_non_empty (
      (getenv env (codes "BK_MONITOR_MYSQL_HOST"))
      ∷ (getenv env (codes "BK_PAAS_MYSQL_HOST"))
      ∷ codes "mysql.service.consul"
      ∷ []);
  mysql_port = first_non_empty (
      (getenv env (codes "BK_MONITOR_MYSQL_PORT"))
      ∷ (getenv env (codes "BK_PAAS_MYSQL_PORT"))
      ∷ codes "3306"
      ∷ []);
  mysql_user = first_non_empty (
      (getenv env (codes "BK_MONITOR_MYSQL_USER"))
      ∷ (getenv env (codes "BK_PAAS_MYSQL_USER"))
      ∷ []);
  mysql_password = first_non_empty (
      (getenv env (codes "BK_MONITOR_MYSQL_PASSWORD"))
      ∷ (getenv env (codes "BK_PAAS_MYSQL_PASSWORD"))
      ∷ []);
  rabbitmq_host = getenv env (codes "BK_MONITOR_RABBITMQ_HOST");
  rabbitmq_port = getenv env (codes "BK_MONITOR_RABBITMQ_PORT");
  rabbitmq_user = getenv env (codes "BK_MONITOR_RABBITMQ_USERNAME");
  rabbitmq_password = getenv env (codes "BK_MONITOR_RABBITMQ_PASSWORD");
  rabbitmq_vhost = getenv env (codes "BK_MONITOR_RABBITMQ_VHOST");
  zk_host = getenv env (codes "BK_GSE_ZK_HOST");
  zk_port = getenv env (codes "BK_GSE_ZK_PORT");
  es7_host = getenv env (codes "BK_MONITOR_ES7_HOST");
  es7_rest_port = getenv env (codes "BK_MONITOR_ES7_REST_PORT");
  es7_user = getenv env (codes "BK_MONITOR_ES7_USER");
  es7_password = getenv env (codes "BK_MONITOR_ES7_PASSWORD");
  influxdb_host = getenv env (codes "BK_INFLUXDB_IP0");
  influxdb_port = getenv env (codes "BK_MONITOR_INFLUXDB_PORT");
}

unfoldable pub load_creds : Env → Credentials
unfolding getenv env_or_default
load_creds env = record {
  mysql_user = env_or_default env (codes "BK_MYSQL_ADMIN_USER") (codes "root");
  mysql_password = getenv env (codes "BK_MYSQL_ADMIN_PASSWORD");
  redis_password = getenv env (codes "BK_REDIS_ADMIN_PASSWORD");
  mongodb_user = env_or_default env (codes "BK_MONGODB_ADMIN_USER") (codes "root");
  mongodb_password = getenv env (codes "BK_MONGODB_ADMIN_PASSWORD");
  es7_password = getenv env (codes "BK_ES7_ADMIN_PASSWORD");
  rabbitmq_user = env_or_default env (codes "BK_RABBITMQ_ADMIN_USER") (codes "admin");
  rabbitmq_password = getenv env (codes "BK_RABBITMQ_ADMIN_PASSWORD");
}

unfoldable pub load_thresholds : {F : Type 0} ⦃fl : FloatOps F⦄ → Env → Loaded (Thresholds F)
unfolding getenv parse_float_env parse_int_env parse_vhost_blacklist
load_thresholds ⦃fl⦄ env = do
  cpu ← parse_float_env env (codes "INSPECT_CPU_THRESHOLD") (fl.of_int (pos 95))
  disk ← parse_float_env env (codes "INSPECT_DISK_THRESHOLD") (fl.of_int (pos 95))
  inode ← parse_float_env env (codes "INSPECT_INODE_THRESHOLD") (fl.of_int (pos 95))
  mem ← parse_float_env env (codes "INSPECT_MEM_THRESHOLD") (fl.of_int (pos 95))
  max_open ← parse_int_env env (codes "INSPECT_MAX_OPEN_FILES") (pos 65536)
  mysql_lag ← parse_int_env env (codes "INSPECT_MYSQL_REPL_LAG_THRESHOLD") (pos 60)
  redis_io ← parse_int_env env (codes "INSPECT_REDIS_REPL_IO_THRESHOLD") (pos 10)
  rmq_backlog ← parse_int_env env (codes "INSPECT_RABBITMQ_QUEUE_BACKLOG_THRESHOLD") (pos 10000)
  es_heap ← parse_int_env env (codes "INSPECT_ES_HEAP_THRESHOLD") (pos 85)
  es_ram ← parse_int_env env (codes "INSPECT_ES_RAM_THRESHOLD") (pos 95)
  es_unassigned ← parse_int_env env (codes "INSPECT_ES_UNASSIGNED_SHARDS_THRESHOLD") (pos 0)
  redis_celery ← parse_int_env env (codes "INSPECT_REDIS_CELERY_QUEUE_THRESHOLD") (pos 1000)
  redis_monitor ← parse_int_env env (codes "INSPECT_REDIS_MONITOR_QUEUE_THRESHOLD") (pos 10000)
  docker_exited ← parse_int_env env (codes "INSPECT_DOCKER_EXITED_THRESHOLD") (pos 0)
  loaded (record {
    cpu_usage = cpu;
    disk_usage = disk;
    inode_usage = inode;
    mem_usage = mem;
    max_open_files = max_open;
    mysql_repl_lag_sec = mysql_lag;
    redis_repl_io_sec = redis_io;
    rabbitmq_queue_backlog = rmq_backlog;
    rabbitmq_no_consumer_vhost_blacklist =
        parse_vhost_blacklist env (getenv env blacklist_key) (codes "bk_bknodeman" ∷ []);
    es_heap_percent = es_heap;
    es_ram_percent = es_ram;
    es_unassigned_shards = es_unassigned;
    redis_celery_queue = redis_celery;
    redis_monitor_queue = redis_monitor;
    service_containers_exited = docker_exited;
  })

unfoldable pub load_config : {F : Type 0} ⦃fl : FloatOps F⦄ → Env → Str → Loaded (Config F)
unfolding getenv env_or_default parse_int_env parse_bool_env load_addresses load_bk_monitor_v3
    load_creds load_thresholds build_all_hosts
load_config env output_dir = do
  thresholds ← load_thresholds env
  port ← parse_int_env env (codes "INSPECT_SSH_PORT") (pos 22)
  api_timeout ← parse_int_env env (codes "INSPECT_RABBITMQ_API_TIMEOUT_SEC") (pos 60)
  loaded (record {
    addresses = load_addresses env;
    mysql_port = env_or_default env (codes "INSPECT_MYSQL_PORT") (codes "3306");
    redis_port = env_or_default env (codes "INSPECT_REDIS_PORT") (codes "6379");
    mongodb_port = env_or_default env (codes "INSPECT_MONGODB_PORT") (codes "27017");
    mongo_rs_name = env_or_default env (codes "INSPECT_MONGO_RS_NAME") (codes "rs0");
    bk_monitor_v3 = load_bk_monitor_v3 env;
    all_hosts = build_all_hosts (load_addresses env);
    creds = load_creds env;
    thresholds = thresholds;
    ssh_user = env_or_default env (codes "INSPECT_SSH_USER") (codes "root");
    ssh_port = port;
    ssh_key_path = getenv env (codes "INSPECT_SSH_KEY_PATH");
    ssh_use_sudo = parse_bool_env env (codes "INSPECT_SSH_USE_SUDO") false;
    ssh_timeout = pos 30;
    rabbitmq_api_timeout_sec = api_timeout;
    output_dir = output_dir;
    check_mount_path = getenv env (codes "CHECK_MOUNT_PATH");
    disk_include_nfs = parse_bool_env env (codes "INSPECT_DISK_INCLUDE_NFS") false;
  })

-- Validate: whether its error is nil.
unfoldable pub is_valid_config : {F : Type 0} → Config F → Bool
is_valid_config c = not (length c.all_hosts == 0)
