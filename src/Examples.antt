-- ===== src/Examples.antt =====
-- Concrete values: runs, reports and settings that the examples in the child modules use.
use weops_inspect.Prelude.{
  ◌+◌, ◌-◌, ◌*◌, ◌/◌, ℕ, zero, suc, ◌+◌, ◌-◌, ◌*◌, ◌/◌, ◌%◌, ◌^◌, ◌≤◌, ◌<◌, ◌≡◌, refl, sym, ap, ◌∙◌,
  ◌≢◌, ◌↔◌, ◌⊎◌, inl, inr, Bool, true, false, not, ◌&&◌, ◌||◌, Option, none, some, List, [], ◌∷◌,
  ◌++◌, map, arith, ltb, leb, ◌==◌, if◌then◌else◌, ltb→lt, lt→ltb, leb→le, ==_iff, tests,
  Bool-cases, Option-cases, length, length-append, filter, any, all, take, drop, replicate,
  is_empty, filter-true, count_if, length-filter, count_if-append, any-append, all-append, ℤ, pos,
  negsuc, pos_part, neg_part, sub_ℕ, ◌≤ℤ◌, ltb_ℤ, leb_ℤ, eqb_ℤ, succ_int, Str, codes, str_eq,
  str_eq_iff, str_eq_refl, str_eq_sym, str_lt, str_lt_irrefl, str_lt_trans, str_lt_total, Dict,
  lookup, insert, lookup-insert, get_or, FloatOps,
}
pub mod Collect
pub mod Gate
pub mod Mails
pub mod Rules
pub mod Settings
use weops_inspect.Decimal.{itoa, atoi}
use weops_inspect.Model.{
  CheckStatus, unset, ok, warn, CheckResult, HostMetrics, HostCheckResult, InspectReport,
}
use weops_inspect.Config.Types.{Thresholds}
use weops_inspect.Checker.Summary.{summarize}
use weops_inspect.Notify.Alerts.{AlertItem}
use weops_inspect.Notify.Persistence.{PendingItem, status_alert}
use weops_inspect.Notify.State.{State, Disk, SaveCalls, encoded, holding, cold_start}
use weops_inspect.Notify.Config.{Config}
use weops_inspect.Notify.Flow.{World}
use weops_inspect.Notify.Persistence.Runs.{Run}

-- Whole percentages in place of float64.
abbrev pub whole : FloatOps ℕ
whole = record {
  ge = λ a b. leb b a;
  gt = λ a b. ltb b a;
  eq = λ a b. a == b;
  zero_float = 0;
  of_int = λ i. pos_part i;
  parse_float = λ s. (pos_part (atoi s).0, (atoi s).1);
  format_0 = λ n. itoa (pos n);
  format_2 = λ n. itoa (pos n) ++ codes ".00";
  plus = λ a b. a + b;
  minus = λ a b. a - b;
  times = λ a b. a * b;
  over = λ a b. a / b;
  to_int = λ a. pos a;
}

abbrev pub thresholds : Thresholds ℕ
thresholds = record {
  cpu_usage = 95;
  disk_usage = 95;
  inode_usage = 95;
  mem_usage = 95;
  max_open_files = pos 65536;
  mysql_repl_lag_sec = pos 60;
  redis_repl_io_sec = pos 10;
  rabbitmq_queue_backlog = pos 10000;
  rabbitmq_no_consumer_vhost_blacklist = codes "bk_bknodeman" ∷ [];
  es_heap_percent = pos 85;
  es_ram_percent = pos 95;
  es_unassigned_shards = pos 0;
  redis_celery_queue = pos 1000;
  redis_monitor_queue = pos 10000;
  service_containers_exited = pos 0;
}

abbrev pub host_with : Str → ℕ → HostMetrics ℕ
host_with ip cpu = record {
  ip = ip;
  cpu_usage = cpu;
  mem_usage = 50;
  load_avg1 = 1;
  load_avg5 = 1;
  load_avg15 = 1;
  swap_usage = 0;
  disk_usage =
      record {
        mount_point = codes "/";
        fs_type = codes "xfs";
        usage = codes "97%";
        usage_float = 0;
      }
      ∷ [];
  inode_usage = [];
  max_open_files = pos 102400;
  process_total = pos 200;
  ntpd = codes "N/A";
  chronyd = codes "active";
  selinux = codes "Disabled";
  firewalld = codes "inactive";
  proxy = pos 0;
  iptables = [];
  network = record { close_wait = pos 0; established = pos 9; listen = pos 4; time_wait = pos 1 };
  run_days = pos 30;
  version = [];
  kernel = [];
  memory = 64;
  swap = 0;
  core = pos 16;
  manufacturer = [];
  product = [];
  serial = [];
  error = [];
}

abbrev pub item : Str → AlertItem
item field = record { host = codes "10.0.0.1"; field = field; value = codes "99%"; threshold = [] }

abbrev pub cpu : AlertItem
cpu = item (codes "cpu_usage")

abbrev pub cpu_key : Str
cpu_key = codes "10.0.0.1|cpu_usage"

-- A run that sees the CPU alert, at a time in nanoseconds.
abbrev pub run_at : ℕ → Run
run_at t = record { items = cpu ∷ []; now = t }

abbrev pub check : Str → CheckStatus → CheckResult
check field status = record { field = field; value = codes "99%"; status = status; threshold = [] }

abbrev pub report_of : List CheckResult → InspectReport ℕ
report_of checks = record {
  timestamp = codes "2026-05-08 21:00:00";
  hosts = record { metrics = host_with (codes "10.0.0.1") 99; checks = checks } ∷ [];
  services = [];
  es = [];
  mysql = [];
  redis_standalone = [];
  redis_sentinel = none;
  mongodb = [];
  rabbitmq = none;
  replication = none;
  bk_monitor_v3 = none;
  summary = summarize checks;
  all_checks = checks;
}

-- One warning and one check that is OK.
abbrev pub report : InspectReport ℕ
report = report_of (check (codes "cpu_usage") warn ∷ check (codes "mem_usage") ok ∷ [])

abbrev pub clean_report : InspectReport ℕ
clean_report = report_of (check (codes "cpu_usage") ok ∷ [])

abbrev pub all_calls : SaveCalls
all_calls = record {
  mkdir_ok = true;
  marshal_ok = true;
  create_ok = true;
  write_ok = true;
  chmod_ok = true;
  close_ok = true;
  rename_ok = true;
  remove_ok = true;
}

-- The hash is the text itself, behind a letter.
abbrev pub world_at : ℕ → Bool → World
world_at t sends = record {
  now = t;
  hex_sha256 = λ s. b'h' ∷ s;
  read_file = λ _. none;
  send = λ _. sends;
  calls = all_calls;
}

abbrev pub config : Config
config = record {
  email = record {
    enabled = true;
    smtp_host = codes "mail";
    smtp_port = pos 25;
    use_tls = false;
    username = [];
    password = [];
    sender = codes "a@b";
    recipients = codes "c@d" ∷ [];
  };
  trigger = record { min_interval_minutes = pos 120; send_recovery = true };
  persistence = record { consecutive_runs = pos 2 };
  path = codes "/c.json";
}

abbrev pub disk_with : State → Disk
disk_with s = record { state_file = holding (encoded s); temps = [] }

-- An alert was mailed at time 0, and the CPU alert has been seen once since.
abbrev pub after_alert : State
after_alert = record {
  last_sent_at = 0;
  last_signature = b'h' ∷ (cpu_key ++ 0 ∷ []);
  last_status = status_alert;
  pending = (cpu_key, record { count = pos 1; first_seen = 5 }) ∷ [];
  recovery_streak = pos 0;
}
