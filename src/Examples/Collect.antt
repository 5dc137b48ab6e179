-- ===== src/Examples/Collect.antt =====
-- The collectors on concrete answers.
use weops_inspect.Prelude.{
  ℕ, zero, suc, ◌-◌, ◌*◌, ◌/◌, ◌%◌, ◌^◌, ◌≤◌, ◌<◌, ◌≡◌, refl, sym, ap, ◌∙◌, ◌≢◌, ◌↔◌, ◌⊎◌, inl, inr,
  Bool, true, false, ◌&&◌, Option, none, some, List, [], ◌∷◌, ◌++◌, map, arith, ltb, leb, ◌==◌,
  if◌then◌else◌, ltb→lt, lt→ltb, leb→le, ==_iff, tests, Bool-cases, Option-cases, length-append,
  any, all, take, drop, replicate, filter-true, count_if, length-filter, count_if-append,
  any-append, all-append, ℤ, negsuc, pos_part, neg_part, sub_ℕ, ◌≤ℤ◌, ltb_ℤ, leb_ℤ, eqb_ℤ, succ_int,
  Str, codes, str_eq, str_eq_iff, str_eq_refl, str_eq_sym, str_lt, str_lt_irrefl, str_lt_trans,
  str_lt_total, Dict, lookup, insert, lookup-insert, get_or, FloatOps,
}
pub mod Whole
use weops_inspect.Prelude.Strings.{split_lines}
use weops_inspect.Model.{unset, ServiceModule, RabbitMqStatus, is_warn}
use weops_inspect.Config.Types.{Addresses, BkMonitorV3DepConfig, Credentials}
use weops_inspect.Checker.Summary.{count_status}
use weops_inspect.Checker.Cells.{statuses}
use weops_inspect.Checker.Service.{check_service}
use weops_inspect.Checker.Es.{check_es}
use weops_inspect.Collector.Probe.{Failure, plain, Answer, is_user, is_blank, is_secret, redact_dsn}
use weops_inspect.Collector.Probe.Redaction.{is_run, lead, is_lead, with_secret, redact_dsn_hides}
use weops_inspect.Collector.Sections.{is_marker, parse_sections}
use weops_inspect.Collector.Sections.RoundTrip.{parse_sections-render}
use weops_inspect.Collector.Sections.Markers.{
  Section, is_line, is_section, render_sections, section_map,
}
use weops_inspect.Collector.Disk.{explicit_paths, skip_header, parse_disk_usage}
use weops_inspect.Collector.Disk.Selection.{df_rows, selection, parse_disk_usage-filter}
use weops_inspect.Collector.Host.Schedule.{collect_all_hosts, host_report}
use weops_inspect.Collector.Host.Slots.{member, Covers, collect_all_hosts-map}
use weops_inspect.Collector.Json.{Json, json_string, json_number}
use weops_inspect.Collector.Es.{EsCalls, collect_es}
use weops_inspect.Collector.Es.Leader.{is_named, es_problems, collect_es-warns}
use weops_inspect.Collector.Registry.{SubModule, sub_module, is_registered, module_hosts-registered}
use mathlib.Core.List.{Perm}
use mathlib.Core.List.Perm
use weops_inspect.Config.Hosts.{get_module_hosts}
use weops_inspect.Collector.Service.{module_of, service_jobs, run_jobs}
use weops_inspect.Collector.Service.Modules.{hosts_of, status_on, service_jobs-Perm}
use weops_inspect.Collector.Service.Verdicts.{status_expected, healthz_expected, module_of-cells}
use weops_inspect.Collector.Mongo.{MongoCalls, host_list, collect_mongo}
use weops_inspect.Collector.Mongo.Uri.{collect_mongo-redacted}
use weops_inspect.Collector.BkDeps.{DepCalls, AmqpAnswer}
use weops_inspect.Examples.{whole, thresholds}

abbrev pub here : Str
here = codes "10.0.0.1"

abbrev pub there : Str
there = codes "10.0.0.2"

abbrev pub refused : Failure
refused = plain (codes "dial tcp: connection refused")

redact_dsn_hides_example :
    redact_dsn (lead (some (codes "mongodb")) ++ with_secret (codes "root") (codes "p:w") here)
    ≡ lead (some (codes "mongodb")) ++ (codes "root" ++ codes ":***@") ++ redact_dsn here
redact_dsn_hides_example =
    redact_dsn_hides (some (codes "mongodb")) (codes "root") (codes "p:w") here
      (unfold all is_user is_blank in refl) (unfold is_run all is_user is_blank in refl)
      (unfold is_run all is_secret is_blank in refl)

-- A driver that cannot connect, and QueryEscape on a password that it leaves alone.
abbrev mongo_calls : MongoCalls
mongo_calls = record {
  query_escape = λ s. s;
  connect = λ uri. some refused;
  members = λ uri. inr refused;
}

abbrev mongo_creds : Credentials
mongo_creds = record {
  mysql_user = [];
  mysql_password = [];
  redis_password = [];
  mongodb_user = codes "root";
  mongodb_password = codes "p%40w";
  es7_password = [];
  rabbitmq_user = [];
  rabbitmq_password = [];
}

collect_mongo-redacted_example :
    map
      (λ r. r.1.target)
      (collect_mongo mongo_calls mongo_creds (codes "27017") (codes "rs0") (here ∷ there ∷ []))
    ≡ (codes "mongodb://"
        ++ (codes "root" ++ codes ":***@")
        ++ redact_dsn (
            host_list (codes "27017") (here ∷ there ∷ [])
            ++ codes "/?replicaSet="
            ++ codes "rs0"
            ++ codes "&authSource=admin"))
      ∷ []
collect_mongo-redacted_example =
    collect_mongo-redacted mongo_calls mongo_creds (codes "27017") (codes "rs0") here (there ∷ [])
      (unfold is_run all is_user is_blank in refl) (unfold is_run all is_secret is_blank in refl)

-- The tag ULIMIT comes twice, the second time with no line.
abbrev batch : List Section
batch =
    record { tag = codes "ULIMIT"; lines = codes "1024" ∷ [] ∷ [] }
    ∷ record { tag = codes "SELINUX"; lines = codes " Disabled" ∷ [] }
    ∷ record { tag = codes "ULIMIT"; lines = [] }
    ∷ []

parse_sections-render_example : parse_sections (render_sections batch) ≡ section_map batch []
parse_sections-render_example =
    parse_sections-render batch (unfold all is_section is_line is_marker in refl)

abbrev df : Str
df =
    codes
      "Filesystem Type Size Used Avail Use% Mounted on\n/dev/sda1 xfs 40G 4G 36G 10% /\ntmpfs tmpfs 4G 0 4G 0% /dev/shm"

parse_disk_usage-filter_example :
    parse_disk_usage ⦃fl = whole⦄ df [] false
    ≡ selection ⦃fl = whole⦄ (explicit_paths []) false (df_rows (skip_header (split_lines df)))
parse_disk_usage-filter_example = parse_disk_usage-filter ⦃fl = whole⦄ df [] false

-- The first host answers, the second does not.
abbrev pub first_answer : Str → Str ⊎ Failure
first_answer ip = if str_eq ip here then inl (codes "cpu 1 2 3 4") else inr refused

abbrev pub batch_output : Str → Str
batch_output ip = codes "cpu 2 4 6 8\n===SELINUX===\nDisabled\n"

order-Covers : Covers 2 (1 ∷ 0 ∷ [])
unfolding Covers member
order-Covers zero l = refl
order-Covers (suc zero) l = refl
order-Covers (suc (suc j)) l = absurd (omega (arith, l))

collect_all_hosts-map_example :
    collect_all_hosts ⦃fl = whole⦄ first_answer batch_output [] false
      (here ∷ there ∷ [])
      (1 ∷ 0 ∷ [])
      (1 ∷ 0 ∷ [])
    ≡ map (host_report ⦃fl = whole⦄ first_answer batch_output [] false) (here ∷ there ∷ [])
collect_all_hosts-map_example =
    collect_all_hosts-map ⦃fl = whole⦄ first_answer batch_output [] false (here ∷ there ∷ [])
      (1 ∷ 0 ∷ []) (1 ∷ 0 ∷ []) order-Covers order-Covers

abbrev pub es_calls : EsCalls ℕ
es_calls = record {
  has_curl = true;
  get_root = λ ip. if str_eq ip here then inr refused else inl (codes "{}");
  get_health = λ ip. inl (codes "{}");
  get_nodes = λ ip. inr refused;
  decode_object = λ s. some ((codes "status", json_string (codes "green")) ∷ []);
  decode_list = λ s. none;
}

collect_es-warns_example :
    count_status is_warn
      (check_es thresholds (collect_es ⦃fl = whole⦄ es_calls (here ∷ there ∷ []))).1
    ≡ es_problems ⦃fl = whole⦄ es_calls (here ∷ there ∷ [])
collect_es-warns_example =
    collect_es-warns ⦃fl = whole⦄ thresholds es_calls (here ∷ there ∷ []) (unfold all in refl)

abbrev queue : Str → ℕ → Dict (Json ℕ)
queue name messages =
    (codes "vhost", json_string (codes "/"))
    ∷ (codes "name", json_string name)
    ∷ (codes "messages", json_number messages)
    ∷ []

abbrev queues : List (Dict (Json ℕ))
queues = queue (codes "a") 10000 ∷ queue (codes "celeryev.1") 20000 ∷ queue (codes "b") 5 ∷ []

abbrev analysis : SubModule
analysis =
    record (sub_module (codes "job-analysis") (codes "bk-job-analysis") (codes "job-analysis") 10508
      (codes "/actuator/health") (codes "json_up")) {
        skip_status_check = true;
        skip_healthz_check = true;
      }

-- The service whose status is not collected is reported as Unknown.
module_of-cells_example :
    statuses (check_service (module_of [] analysis) (codes "job")).1
    ≡ status_expected analysis (lookup (codes "SVC_job-analysis") [])
      ∷ healthz_expected analysis (lookup (codes "HZ_job-analysis") [])
module_of-cells_example = module_of-cells [] analysis (codes "job")

abbrev service_run : Str → Str → Str × Option Failure
service_run host command = ([], some refused)

abbrev pub addresses : Addresses
addresses = record {
  paas_ips = [];
  cmdb_ips = [];
  job_ips = here ∷ [];
  gse_ips = [];
  appo_ips = [];
  appt_ips = [];
  iam_ips = [];
  user_mgr_ips = [];
  node_man_ips = [];
  monitor_v3_ips = here ∷ [];
  monitor_v3_monitor_ips = [];
  monitor_v3_influxdb_proxy_ips = [];
  monitor_v3_transfer_ips = [];
  monitor_v3_unify_query_ips = [];
  es7_ips = [];
  mysql_ips = [];
  mysql_master_ips = here ∷ [];
  mysql_slave_ips = there ∷ [];
  redis_ips = [];
  redis_master_ips = here ∷ [];
  redis_slave_ips = there ∷ [];
  redis_sentinel_ips = [];
  mongodb_ips = [];
  rabbitmq_ips = [];
}

service_jobs-Perm_example :
    Perm (get_or [] (lookup (codes "job") (run_jobs service_run (service_jobs addresses) []))) (
      map
        (status_on service_run (codes "job"))
        (hosts_of (codes "job") (get_module_hosts addresses)))
service_jobs-Perm_example =
    service_jobs-Perm service_run addresses (service_jobs addresses) (codes "job")
      (Perm.refl (service_jobs addresses))

abbrev pub deps : BkMonitorV3DepConfig
deps = record {
  redis_host = here;
  redis_port = codes "6379";
  redis_password = [];
  mysql_host = [];
  mysql_port = [];
  mysql_user = [];
  mysql_password = [];
  rabbitmq_host = [];
  rabbitmq_port = [];
  rabbitmq_user = [];
  rabbitmq_password = [];
  rabbitmq_vhost = [];
  zk_host = here;
  zk_port = codes "2181";
  es7_host = [];
  es7_rest_port = [];
  es7_user = [];
  es7_password = [];
  influxdb_host = [];
  influxdb_port = [];
}

abbrev pub dep_calls : DepCalls
dep_calls = record {
  has_redis_cli = true;
  has_mysql = false;
  has_curl = false;
  redis_ping = (codes "PONG\n", none);
  mysql_select = ([], none);
  amqp = record { dial = none; write = none; read = inl 8 };
  zookeeper_dial = some refused;
  es_code = ([], none);
  influxdb_code = ([], none);
}
