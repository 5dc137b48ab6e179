-- ===== src/Collector/Replication.antt =====
-- collector/replication.go: the masters and slaves of MySQL, and the replication of Redis.
use weops_inspect.Prelude.{
  ℕ, zero, suc, ◌+◌, ◌-◌, ◌*◌, ◌/◌, ◌%◌, ◌^◌, ◌≤◌, ◌<◌, ◌≡◌, refl, sym, ap, ◌∙◌, ◌≢◌, ◌↔◌, ◌⊎◌, inl,
  inr, Bool, true, false, not, ◌&&◌, ◌||◌, Option, none, some, List, [], ◌∷◌, ◌++◌, map, arith, ltb,
  leb, ◌==◌, if◌then◌else◌, ltb→lt, lt→ltb, leb→le, ==_iff, tests, Bool-cases, Option-cases, length,
  length-append, filter, any, all, take, drop, replicate, is_empty, filter-true, count_if,
  length-filter, count_if-append, any-append, all-append, ℤ, pos, negsuc, pos_part, neg_part, sub_ℕ,
  ◌≤ℤ◌, ltb_ℤ, leb_ℤ, eqb_ℤ, succ_int, Str, codes, str_eq, str_eq_iff, str_eq_refl, str_eq_sym,
  str_lt, str_lt_irrefl, str_lt_trans, str_lt_total, Dict, lookup, insert, lookup-insert, get_or,
  FloatOps,
}
pub mod Grades
pub mod Grading
use weops_inspect.Decimal.{atoi}
use weops_inspect.Config.Types.{Config}
use weops_inspect.Model.{
  MySqlMasterStatus, MySqlReplicationStatus, MySqlSlaveStatus, RedisReplicationStatus,
  ReplicationReport,
}
use weops_inspect.Collector.Probe.{class_text, Failure, redact_dsn, Answer}
use weops_inspect.Collector.MySql.{
  MySqlCalls, RowSet, classify_mysql, pick_first, slave_io, slave_sql, status_of,
}
use weops_inspect.Collector.Redis.{
  RedisCalls, classify_redis, parse_redis_info, info_get, join_host_port,
}

abbrev pub master_at : Str → MySqlMasterStatus
master_at ip = record { ip = ip; read_only = false; status = []; error = []; error_class = [] }

unfoldable pub failed_master : Str → Str → Failure → MySqlMasterStatus
unfolding redact_dsn classify_mysql class_text
failed_master ip step e = record (master_at ip) {
  status = codes "warn";
  error = step ++ redact_dsn e.text;
  error_class = class_text (classify_mysql (some e));
}

unfoldable pub master_of : Str → Answer ℤ → MySqlMasterStatus
unfolding failed_master
master_of ip (inr e) = failed_master ip (codes "query failed: ") e
master_of ip (inl v) = record (master_at ip) {
  read_only = eqb_ℤ v (pos 1);
  status = if eqb_ℤ v (pos 1) then codes "warn" else codes "ok";
}

-- After openMySQL, which may fail.
unfoldable pub master_after : Str → Option Failure → Answer ℤ → MySqlMasterStatus
unfolding failed_master master_of
master_after ip (some e) answer = failed_master ip (codes "connect failed: ") e
master_after ip none answer = master_of ip answer

-- collectMySQLMaster
unfoldable pub collect_mysql_master : MySqlCalls → Str → MySqlMasterStatus
unfolding master_after
collect_mysql_master calls ip = master_after ip (calls.open_db ip) (calls.read_only ip)

-- Seconds_Behind_Master, 0 where it is missing or NULL
unfoldable pub lag_of : Str → ℤ
unfolding atoi
lag_of v = if is_empty v || str_eq v (codes "NULL") then pos 0 else (atoi v).0

unfoldable pub slave_grade : ℤ → Str → Str → ℤ → Str
slave_grade threshold io sql lag =
    if not (str_eq io (codes "Yes")) || not (str_eq sql (codes "Yes"))
    then codes "critical"
    else if ltb_ℤ threshold lag
    then codes "warn"
    else codes "ok"

unfoldable pub replication_of : ℤ → Dict Str → MySqlReplicationStatus
unfolding slave_io slave_sql pick_first lag_of slave_grade
replication_of threshold row =
    let lag =
      lag_of
        (pick_first row (codes "Seconds_Behind_Master" ∷ codes "Seconds_Behind_Source" ∷ [])) in
    record {
      io_running = slave_io row;
      sql_running = slave_sql row;
      seconds_behind_master = lag;
      last_io_error = pick_first row (codes "Last_IO_Error" ∷ []);
      last_sql_error = pick_first row (codes "Last_SQL_Error" ∷ []);
      master_host = pick_first row (codes "Master_Host" ∷ codes "Source_Host" ∷ []);
      status = slave_grade threshold (slave_io row) (slave_sql row) lag;
    }

-- A node that is no slave.
abbrev pub not_a_slave : MySqlReplicationStatus
not_a_slave = record {
  io_running = [];
  sql_running = [];
  seconds_behind_master = pos 0;
  last_io_error = [];
  last_sql_error = [];
  master_host = [];
  status = codes "not-configured-as-slave";
}

unfoldable pub failed_slave : Str → Str → Failure → MySqlSlaveStatus
unfolding redact_dsn classify_mysql class_text
failed_slave ip step e = record {
  ip = ip;
  replication = none;
  error = step ++ redact_dsn e.text;
  error_class = class_text (classify_mysql (some e));
}

unfoldable pub slave_of : ℤ → Str → Answer (Dict Str) → MySqlSlaveStatus
unfolding failed_slave replication_of
slave_of threshold ip (inr e) = failed_slave ip (codes "query failed: ") e
slave_of threshold ip (inl []) = record {
  ip = ip;
  replication = some not_a_slave;
  error = [];
  error_class = [];
}
slave_of threshold ip (inl (c ∷ row)) = record {
  ip = ip;
  replication = some (replication_of threshold (c ∷ row));
  error = [];
  error_class = [];
}

unfoldable pub slave_after : ℤ → Str → Option Failure → Answer (Dict Str) → MySqlSlaveStatus
unfolding failed_slave slave_of
slave_after threshold ip (some e) status = failed_slave ip (codes "connect failed: ") e
slave_after threshold ip none status = slave_of threshold ip status

-- collectMySQLSlave
unfoldable pub collect_mysql_slave : MySqlCalls → ℤ → Str → MySqlSlaveStatus
unfolding slave_after status_of
collect_mysql_slave calls threshold ip =
    slave_after threshold ip (calls.open_db ip) (status_of (calls.query ip))

abbrev pub redis_at : Str → RedisReplicationStatus
redis_at ip = record {
  ip = ip;
  role = [];
  master_host = [];
  master_port = pos 0;
  master_link_status = [];
  master_last_io_seconds = pos 0;
  master_sync_in_progress = false;
  connected_slaves = pos 0;
  role_consistency_status = codes "ok";
  link_status = [];
  error = [];
  error_class = [];
}

-- strconv.Atoi, its error ignored
unfoldable pub number_of : Str → ℤ
unfolding atoi
number_of s = (atoi s).0

unfoldable pub link_grade : ℤ → Str → ℤ → Str
link_grade threshold link seconds =
    if not (str_eq link (codes "up"))
    then codes "critical"
    else if ltb_ℤ threshold seconds
    then codes "warn"
    else codes "ok"

-- The switch on the role.
unfoldable pub graded_node : ℤ → Dict Str → RedisReplicationStatus → RedisReplicationStatus
unfolding info_get number_of link_grade
graded_node threshold info r =
    let link = info_get (codes "master_link_status") info in
    let seconds = number_of (info_get (codes "master_last_io_seconds_ago") info) in
    if str_eq r.role (codes "master")
    then record r {
      connected_slaves = number_of (info_get (codes "connected_slaves") info);
      link_status = codes "N/A";
    }
    else if str_eq r.role (codes "slave")
    then record r {
      master_host = info_get (codes "master_host") info;
      master_port = number_of (info_get (codes "master_port") info);
      master_link_status = link;
      master_last_io_seconds = seconds;
      master_sync_in_progress =
          str_eq (info_get (codes "master_sync_in_progress") info) (codes "1");
      link_status = link_grade threshold link seconds;
    }
    else record r { link_status = codes "N/A" }

unfoldable pub redis_replication_of : ℤ → Str → Str → Answer Str → RedisReplicationStatus
unfolding classify_redis class_text parse_redis_info info_get graded_node
redis_replication_of threshold declared ip (inr e) = record (redis_at ip) {
  role_consistency_status = codes "N/A";
  error = codes "redis info error: " ++ e.text;
  error_class = class_text (classify_redis (some e));
}
redis_replication_of threshold declared ip (inl out) =
    let info = parse_redis_info out in
    let role = info_get (codes "role") info in
    graded_node threshold info (record (redis_at ip) {
      role = role;
      role_consistency_status = if str_eq role declared then codes "ok" else codes "warn";
    })

-- collectRedisReplication
unfoldable pub collect_redis_replication : RedisCalls → Str → ℤ → Str → Str → RedisReplicationStatus
unfolding redis_replication_of join_host_port
collect_redis_replication calls port threshold declared ip =
    redis_replication_of threshold declared ip (calls.replication_info (join_host_port ip port))

-- nil where nothing is configured
unfoldable pub report_of : ReplicationReport → Option ReplicationReport
report_of rep =
    if is_empty rep.mysql_masters && is_empty rep.mysql_slaves && is_empty rep.redis_nodes
    then none
    else some rep

-- CollectReplication
unfoldable pub collect_replication :
    {F : Type 0} → MySqlCalls → RedisCalls → Config F → Option ReplicationReport
unfolding collect_mysql_master collect_mysql_slave collect_redis_replication report_of
collect_replication mysql redis cfg =
    let lag = cfg.thresholds.mysql_repl_lag_sec in
    let io = cfg.thresholds.redis_repl_io_sec in
    report_of (record {
      mysql_masters = map (collect_mysql_master mysql) cfg.addresses.mysql_master_ips;
      mysql_slaves = map (collect_mysql_slave mysql lag) cfg.addresses.mysql_slave_ips;
      redis_nodes =
          map (collect_redis_replication redis cfg.redis_port io (codes "master"))
            cfg.addresses.redis_master_ips
          ++ map (collect_redis_replication redis cfg.redis_port io (codes "slave"))
              cfg.addresses.redis_slave_ips;
    })
