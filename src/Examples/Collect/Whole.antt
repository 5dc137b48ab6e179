-- ===== src/Examples/Collect/Whole.antt =====
-- Replication, the lock and the whole of what main collects, on concrete answers.
use weops_inspect.Prelude.{
  ℕ, zero, suc, ◌+◌, ◌≡◌, refl, inl, inr, true, false, not, none, some, [], ◌∷◌, map, arith,
  if◌then◌else◌, any, pos, codes, str_eq,
}
use weops_inspect.Config.Types.{Config, Credentials}
use weops_inspect.Model.{is_warn}
use weops_inspect.Checker.Summary.{count_status}
use weops_inspect.Checker.Cells.{sum_of, one_if}
use weops_inspect.Checker.Replication.{check_replication}
use weops_inspect.Collector.Redis.Sentinel.{SentinelCalls}
use weops_inspect.Collector.MySql.{MySqlCalls, status_of}
use weops_inspect.Collector.Redis.{RedisCalls}
use weops_inspect.Collector.Replication.{collect_replication}
use weops_inspect.Collector.Replication.Grading.{node_problems, collect_replication-warns}
use weops_inspect.Collector.Replication.Grades.{is_writable, is_failing}
use weops_inspect.Collector.Host.Slots.{member, Covers}
use weops_inspect.Inspect.{inspect}
use weops_inspect.Inspect.Gather.{
  Outside, gather, host_entry, warned_fields, report_hosts-map, unreachable-warns,
}
use weops_inspect.Lock.{Surroundings, run_locked, exit_busy, launch}
use weops_inspect.Lock.Exclusion.{
  World, idle, Reachable, reach_idle, reach_step, started, start, is_sound, launch-exclusive,
}
use weops_inspect.Examples.{whole, thresholds}
use weops_inspect.Examples.Collect.{
  here, there, refused, first_answer, batch_output, es_calls, addresses, deps, dep_calls,
}

abbrev creds : Credentials
creds = record {
  mysql_user = [];
  mysql_password = [];
  redis_password = [];
  mongodb_user = [];
  mongodb_password = [];
  es7_password = [];
  rabbitmq_user = [];
  rabbitmq_password = [];
}

abbrev settings : Config ℕ
settings = record {
  addresses = addresses;
  mysql_port = codes "3306";
  redis_port = codes "6379";
  mongodb_port = codes "27017";
  mongo_rs_name = codes "rs0";
  bk_monitor_v3 = deps;
  all_hosts = here ∷ there ∷ [];
  creds = creds;
  thresholds = thresholds;
  ssh_user = codes "root";
  ssh_port = pos 22;
  ssh_key_path = [];
  ssh_use_sudo = false;
  ssh_timeout = pos 30;
  rabbitmq_api_timeout_sec = pos 60;
  output_dir = codes ".";
  check_mount_path = [];
  disk_include_nfs = false;
}

-- The slave runs with both threads and lags behind by 90 seconds.
abbrev mysql_calls : MySqlCalls
mysql_calls = record {
  open_db = λ ip. none;
  ping = λ ip. none;
  variables = λ ip. inr refused;
  read_only = λ ip. inl (pos 0);
  query = λ ip q. inl (record {
    columns =
        inl (
          codes "Slave_IO_Running"
          ∷ codes "Slave_SQL_Running"
          ∷ codes "Seconds_Behind_Master"
          ∷ []);
    rows = inl (codes "Yes" ∷ codes "Yes" ∷ codes "90" ∷ []) ∷ [];
    last = none;
  });
}

abbrev redis_calls : RedisCalls
redis_calls = record {
  info = λ target. inr refused;
  replication_info = λ target. inl (codes "role:master\r\nconnected_slaves:1\r\n");
  list_length = λ target key. inr refused;
}

collect_replication-warns_example :
    count_status is_warn
      (check_replication settings.thresholds (collect_replication mysql_calls redis_calls settings))
    ≡ sum_of
        (λ ip. one_if (not (is_writable (mysql_calls.open_db ip) (mysql_calls.read_only ip))))
        (here ∷ [])
      + sum_of
          (λ ip.
            one_if
              (is_failing (pos 60) (mysql_calls.open_db ip) (status_of (mysql_calls.query ip))))
          (there ∷ [])
      + sum_of (node_problems mysql_calls redis_calls settings (codes "master")) (here ∷ [])
      + sum_of (node_problems mysql_calls redis_calls settings (codes "slave")) (there ∷ [])
collect_replication-warns_example = collect_replication-warns mysql_calls redis_calls settings

abbrev outside : Outside ℕ
outside = record {
  timestamp = codes "2026-05-08 21:00:00";
  cpu_sample = first_answer;
  host_batch = batch_output;
  service_batch = λ host command. ([], some refused);
  first_order = 1 ∷ 0 ∷ [];
  second_order = 0 ∷ 1 ∷ [];
  service_order = λ jobs. jobs;
  es = es_calls;
  mysql = mysql_calls;
  redis = redis_calls;
  sentinel = record {
    ping = λ target. inl (codes "PONG");
    master_addr = λ target name. inr refused;
    node_ping = λ target. inr refused;
  };
  sentinel_master_name = codes "mymaster";
  sentinel_port = codes "26379";
  mongo = record {
    query_escape = λ s. s;
    connect = λ uri. some refused;
    members = λ uri. inr refused;
  };
  rabbitmq = record {
    has_curl = false;
    curl = λ endpoint. inr refused;
    decode_list = λ s. none;
    decode_length = λ s. none;
  };
  deps = dep_calls;
}

first-Covers : Covers 2 (1 ∷ 0 ∷ [])
unfolding Covers member
first-Covers zero l = refl
first-Covers (suc zero) l = refl
first-Covers (suc (suc j)) l = absurd (omega (arith, l))

second-Covers : Covers 2 (0 ∷ 1 ∷ [])
unfolding Covers member
second-Covers zero l = refl
second-Covers (suc zero) l = refl
second-Covers (suc (suc j)) l = absurd (omega (arith, l))

report_hosts-map_example :
    (inspect ⦃fl = whole⦄ settings.thresholds
      (here ∷ [])
      (gather ⦃fl = whole⦄ outside settings)).hosts
    ≡ map (host_entry ⦃fl = whole⦄ outside settings) (here ∷ there ∷ [])
report_hosts-map_example = report_hosts-map ⦃fl = whole⦄ outside settings first-Covers second-Covers

unreachable-warns_example :
    map
      (warned_fields ⦃fl = whole⦄)
      (inspect ⦃fl = whole⦄ settings.thresholds
        (here ∷ [])
        (gather ⦃fl = whole⦄ outside settings)).hosts
    ≡ warned_fields ⦃fl = whole⦄ (host_entry ⦃fl = whole⦄ outside settings here)
      ∷ (there, codes "max_open_files" ∷ codes "selinux" ∷ codes "firewalld" ∷ codes "chronyd" ∷ [])
      ∷ []
unreachable-warns_example =
    unreachable-warns ⦃fl = whole⦄ outside settings (here ∷ []) [] there refused first-Covers
      second-Covers refl (unfold str_eq in refl) refl refl refl refl

abbrev sound : Surroundings
sound = record { has_config_path = true; mkdir_error = none; open_error = none; flock_fault = none }

-- One instance runs with the lock, and another one without it.
abbrev two : World
two = record { held = true; running = false ∷ true ∷ [] }

two-Reachable : Reachable two
unfolding launch started
two-Reachable =
    reach_step (record { held = true; running = true ∷ [] }) two
      (reach_step idle (record { held = true; running = true ∷ [] }) reach_idle (start sound idle))
      (start
        (record {
          has_config_path = false;
          mkdir_error = none;
          open_error = none;
          flock_fault = none;
        })
        (record { held = true; running = true ∷ [] }))

launch-exclusive_example :
    launch sound true ≡ (if any (λ holds. holds) (false ∷ true ∷ []) then exit_busy else run_locked)
launch-exclusive_example = launch-exclusive two sound two-Reachable (unfold is_sound in refl)

-- The first sentinel answers and names a master that answers, the second sentinel does not.
abbrev sentinel_calls : SentinelCalls
sentinel_calls = record {
  ping =
      λ target. if str_eq target (codes "10.0.0.1:26379") then inl (codes "PONG") else inr refused;
  master_addr = λ target name. inl (here ∷ codes "6379" ∷ []);
  node_ping = λ target. inl (codes "PONG");
}
