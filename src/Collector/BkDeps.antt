-- ===== src/Collector/BkDeps.antt =====
-- collector/bkmonitor_dep.go: what bk-monitor depends on, asked by command-line tools and TCP.
use weops_inspect.Prelude.{
  ℕ, zero, suc, ◌+◌, ◌-◌, ◌*◌, ◌/◌, ◌%◌, ◌^◌, ◌≤◌, ◌<◌, ◌≡◌, refl, sym, ap, ◌∙◌, ◌≢◌, ◌↔◌, ◌⊎◌, inl,
  inr, Bool, true, false, not, ◌&&◌, ◌||◌, Option, none, some, List, [], ◌∷◌, ◌++◌, map, arith, ltb,
  leb, ◌==◌, if◌then◌else◌, ltb→lt, lt→ltb, leb→le, ==_iff, tests, Bool-cases, Option-cases, length,
  length-append, filter, any, all, take, drop, replicate, is_empty, filter-true, count_if,
  length-filter, count_if-append, any-append, all-append, ℤ, pos, negsuc, pos_part, neg_part, sub_ℕ,
  ◌≤ℤ◌, ltb_ℤ, leb_ℤ, eqb_ℤ, succ_int, Str, codes, str_eq, str_eq_iff, str_eq_refl, str_eq_sym,
  str_lt, str_lt_irrefl, str_lt_trans, str_lt_total, Dict, lookup, insert, lookup-insert, get_or,
  FloatOps,
}
pub mod Outcomes
use weops_inspect.Prelude.Strings.{trim_space, cut_char}
use weops_inspect.Config.Types.{BkMonitorV3DepConfig, Addresses}
use weops_inspect.Model.{unset, DependencyResult}
use weops_inspect.Collector.Probe.{Failure, Answer}

unfoldable pub dependency : Str → Str → Str → Str → DependencyResult
dependency item endpoint status detail = record {
  item = item;
  endpoint = endpoint;
  status = status;
  detail = detail;
  render_status = unset;
}

-- skipIfMissing, and the probe behind it.
unfoldable pub skip_if_missing : Str → Str → Bool → DependencyResult → DependencyResult
unfolding dependency
skip_if_missing item endpoint missing result =
    if missing then dependency item endpoint (codes "skip") (codes "missing config") else result

-- exec.LookPath, and the probe behind it.
unfoldable pub need_tool : Str → Str → Bool → Str → DependencyResult → DependencyResult
unfolding dependency
need_tool item endpoint found missing_text result =
    if found then result else dependency item endpoint (codes "unreachable") missing_text

-- firstLine
unfoldable pub first_line : Str → Option Failure → Str
unfolding trim_space cut_char
first_line out err =
    let s = trim_space out in
    if is_empty s
    then elim err [ none ↦ [] | some e ↦ e.text ]
    else elim (cut_char 10 s) [ none ↦ s | some (line, rest) ↦ line ]

-- What a tool prints, with its error.
abbrev pub Output : Type 0
Output = Str × Option Failure

unfoldable pub redis_outcome : Str → Str → Output → DependencyResult
unfolding dependency trim_space
redis_outcome item endpoint (out, some e) = dependency item endpoint (codes "unreachable") e.text
redis_outcome item endpoint (out, none) =
    if str_eq (trim_space out) (codes "PONG")
    then dependency item endpoint (codes "ok") []
    else dependency item endpoint (codes "fail") (trim_space out)

unfoldable pub mysql_outcome : Str → Str → Output → DependencyResult
unfolding dependency trim_space first_line
mysql_outcome item endpoint (out, some e) =
    dependency item endpoint (codes "fail") (first_line out (some e))
mysql_outcome item endpoint (out, none) =
    if str_eq (trim_space out) (codes "1")
    then dependency item endpoint (codes "ok") []
    else dependency item endpoint (codes "fail") (trim_space out)

-- net.DialTimeout, the write of the AMQP header, and the number of bytes that are read.
pub record AmqpAnswer : Type 0 where
  pub dial : Option Failure
  pub write : Option Failure
  pub read : Answer ℕ

abbrev pub read_some : Answer ℕ → Bool
read_some (inl n) = not (n == 0)
read_some (inr e) = false

unfoldable pub rabbitmq_outcome : Str → Str → Str → AmqpAnswer → DependencyResult
unfolding dependency
rabbitmq_outcome item endpoint vhost a = elim a.dial [
  | some e ↦ dependency item endpoint (codes "unreachable") e.text
  | none ↦ elim a.write [
    | some e ↦ dependency item endpoint (codes "fail") e.text
    | none ↦
        if read_some a.read
        then dependency item endpoint (codes "ok")
            (codes "vhost=" ++ vhost ++ codes " (auth not validated)")
        else dependency item endpoint (codes "fail") (codes "no AMQP response")
  ]
]

unfoldable pub zookeeper_outcome : Str → Str → Option Failure → DependencyResult
unfolding dependency
zookeeper_outcome item endpoint (some e) = dependency item endpoint (codes "unreachable") e.text
zookeeper_outcome item endpoint none =
    dependency item endpoint (codes "ok") (codes "TCP-only probe; 4lw whitelist may exclude ruok")

unfoldable pub no_response : Str → Bool
no_response code = is_empty code || str_eq code (codes "000")

unfoldable pub es_outcome : Str → Str → Output → DependencyResult
unfolding dependency trim_space no_response
es_outcome item endpoint (out, some e) = dependency item endpoint (codes "unreachable") e.text
es_outcome item endpoint (out, none) =
    let code = trim_space out in
    if str_eq code (codes "200")
    then dependency item endpoint (codes "ok") []
    else if str_eq code (codes "401") || str_eq code (codes "403")
    then dependency item endpoint (codes "fail") (codes "auth failed (HTTP " ++ code ++ codes ")")
    else if no_response code
    then dependency item endpoint (codes "unreachable") (codes "no HTTP response")
    else dependency item endpoint (codes "fail") (codes "HTTP " ++ code)

unfoldable pub influxdb_outcome : Str → Str → Output → DependencyResult
unfolding dependency trim_space no_response
influxdb_outcome item endpoint (out, some e) = dependency item endpoint (codes "unreachable") e.text
influxdb_outcome item endpoint (out, none) =
    let code = trim_space out in
    if str_eq code (codes "204") || str_eq code (codes "200")
    then dependency item endpoint (codes "ok") []
    else if no_response code
    then dependency item endpoint (codes "unreachable") (codes "no HTTP response")
    else dependency item endpoint (codes "fail") (codes "HTTP " ++ code)

-- Which tools are found, and what they and the connections answer.
pub record DepCalls : Type 0 where
  pub has_redis_cli : Bool
  pub has_mysql : Bool
  pub has_curl : Bool
  pub redis_ping : Output
  pub mysql_select : Output
  pub amqp : AmqpAnswer
  pub zookeeper_dial : Option Failure
  pub es_code : Output
  pub influxdb_code : Output

-- "%s:%s"
abbrev pub endpoint_of : Str → Str → Str
endpoint_of host port = host ++ codes ":" ++ port

abbrev pub lacks : Str → Str → Bool
lacks host port = is_empty host || is_empty port

-- The six probes.
unfoldable pub probe_deps : DepCalls → BkMonitorV3DepConfig → List DependencyResult
unfolding skip_if_missing need_tool redis_outcome mysql_outcome rabbitmq_outcome zookeeper_outcome
    es_outcome influxdb_outcome
probe_deps calls d =
    let redis = endpoint_of d.redis_host d.redis_port in
    let mysql = endpoint_of d.mysql_host d.mysql_port in
    let rabbitmq = endpoint_of d.rabbitmq_host d.rabbitmq_port in
    let zookeeper = endpoint_of d.zk_host d.zk_port in
    let es = endpoint_of d.es7_host d.es7_rest_port in
    let influxdb = endpoint_of d.influxdb_host d.influxdb_port in
    skip_if_missing (codes "redis") redis (lacks d.redis_host d.redis_port) (
      need_tool (codes "redis") redis calls.has_redis_cli (codes "redis-cli not available")
        (redis_outcome (codes "redis") redis calls.redis_ping))
    ∷ skip_if_missing (codes "mysql") mysql
        (lacks d.mysql_host d.mysql_port || is_empty d.mysql_user)
        (need_tool (codes "mysql") mysql calls.has_mysql (codes "mysql CLI not available")
          (mysql_outcome (codes "mysql") mysql calls.mysql_select))
    ∷ skip_if_missing (codes "rabbitmq") rabbitmq
        (lacks d.rabbitmq_host d.rabbitmq_port || is_empty d.rabbitmq_user)
        (rabbitmq_outcome (codes "rabbitmq") rabbitmq d.rabbitmq_vhost calls.amqp)
    ∷ skip_if_missing (codes "zookeeper") zookeeper (lacks d.zk_host d.zk_port)
        (zookeeper_outcome (codes "zookeeper") zookeeper calls.zookeeper_dial)
    ∷ skip_if_missing (codes "es7") es (lacks d.es7_host d.es7_rest_port) (
        need_tool (codes "es7") es calls.has_curl (codes "curl not available")
          (es_outcome (codes "es7") es calls.es_code))
    ∷ skip_if_missing (codes "influxdb") influxdb (lacks d.influxdb_host d.influxdb_port) (
        need_tool (codes "influxdb") influxdb calls.has_curl (codes "curl not available")
          (influxdb_outcome (codes "influxdb") influxdb calls.influxdb_code))
    ∷ []

-- No role of bk-monitor has an address.
unfoldable pub lacks_monitor : Addresses → Bool
lacks_monitor a =
    is_empty a.monitor_v3_ips
    && is_empty a.monitor_v3_monitor_ips
    && is_empty a.monitor_v3_influxdb_proxy_ips
    && is_empty a.monitor_v3_transfer_ips
    && is_empty a.monitor_v3_unify_query_ips

-- CollectBKMonitorV3Deps
unfoldable pub collect_bk_deps :
    DepCalls → Addresses → BkMonitorV3DepConfig → Option (List DependencyResult)
unfolding lacks_monitor probe_deps
collect_bk_deps calls a d = if lacks_monitor a then none else some (probe_deps calls d)
