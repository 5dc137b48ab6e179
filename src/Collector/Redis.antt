-- ===== src/Collector/Redis.antt =====
-- collector/redis.go: the nodes of Redis and its sentinels. Each parameter is a call of go-redis.
use weops_inspect.Prelude.{
  ℕ, zero, suc, ◌+◌, ◌-◌, ◌*◌, ◌/◌, ◌%◌, ◌^◌, ◌≤◌, ◌<◌, ◌≡◌, refl, sym, ap, ◌∙◌, ◌≢◌, ◌↔◌, ◌⊎◌, inl,
  inr, Bool, true, false, not, ◌&&◌, ◌||◌, Option, none, some, List, [], ◌∷◌, ◌++◌, map, arith, ltb,
  leb, ◌==◌, if◌then◌else◌, ltb→lt, lt→ltb, leb→le, ==_iff, tests, Bool-cases, Option-cases, length,
  length-append, filter, any, all, take, drop, replicate, is_empty, filter-true, count_if,
  length-filter, count_if-append, any-append, all-append, ℤ, pos, negsuc, pos_part, neg_part, sub_ℕ,
  ◌≤ℤ◌, ltb_ℤ, leb_ℤ, eqb_ℤ, succ_int, Str, codes, str_eq, str_eq_iff, str_eq_refl, str_eq_sym,
  str_lt, str_lt_irrefl, str_lt_trans, str_lt_total, Dict, lookup, insert, lookup-insert, get_or,
  FloatOps,
}
pub mod Sentinel
pub mod SentinelStatus
use weops_inspect.Prelude.Strings.{
  has_prefix, has_substring, trim_space, split_lines, split_crlf, cut_char, to_upper,
}
use weops_inspect.Model.{unset, RedisNode}
use weops_inspect.Collector.Probe.{
  ErrorClass, err_none, err_auth, err_protocol, class_text, Failure, classify, mentions,
  ProbeResult, Answer,
}

-- classifyRedis
unfoldable pub classify_redis_failure : Failure → ErrorClass
unfolding mentions to_upper classify
classify_redis_failure e =
    if mentions (codes "NOAUTH" ∷ codes "WRONGPASS" ∷ codes "INVALID PASSWORD" ∷ [])
      (to_upper e.text)
    then err_auth
    else if e.is_strconv
    then err_protocol
    else classify (some e)

unfoldable pub classify_redis : Option Failure → ErrorClass
unfolding classify_redis_failure
classify_redis none = err_none
classify_redis (some e) = classify_redis_failure e

-- A line of INFO, its blanks removed: the text before its first colon, and the text after it.
unfoldable pub info_entry : Str → Option (Str × Str)
unfolding cut_char has_prefix
info_entry line =
    if is_empty line || has_prefix (codes "#") line then none else elim (cut_char b':' line) [
      | none ↦ none
      | some (key, value) ↦ if is_empty key then none else some (key, value)
    ]

abbrev pub add_entry : Option (Str × Str) → Dict Str → Dict Str
add_entry none info = info
add_entry (some (key, value)) info = insert key value info

unfoldable pub info_lines : List Str → Dict Str → Dict Str
unfolding info_entry trim_space
info_lines [] info = info
info_lines (line ∷ lines) info = info_lines lines (add_entry (info_entry (trim_space line)) info)

-- parseRedisInfo
unfoldable pub parse_redis_info : Str → Dict Str
unfolding info_lines split_crlf split_lines
parse_redis_info output =
    let info = info_lines (split_crlf output) [] in
    if is_empty info then info_lines (split_lines output) [] else info

-- info[key]
unfoldable pub info_get : Str → Dict Str → Str
unfolding lookup
info_get key info = get_or [] (lookup key info)

-- net.JoinHostPort
unfoldable pub join_host_port : Str → Str → Str
join_host_port host port =
    if any (λ c. c == b':') host
    then codes "[" ++ host ++ codes "]:" ++ port
    else host ++ codes ":" ++ port

abbrev pub empty_node : Str → RedisNode
empty_node ip = record {
  ip = ip;
  role = [];
  cluster_enabled = [];
  version = [];
  used_memory = [];
  max_memory = [];
  uptime_days = [];
  connected_clients = [];
  blocked_clients = [];
  celery_queue = pos 0;
  monitor_queue = pos 0;
  error = [];
  error_class = [];
  celery_queue_status = unset;
  monitor_queue_status = unset;
  error_status = unset;
}

-- A length, or the 0 that stands there before.
abbrev pub length_or_zero : Answer ℤ → ℤ
length_or_zero (inl v) = v
length_or_zero (inr e) = pos 0

-- What INFO and LLEN of db 11 answer for an address.
pub record RedisCalls : Type 0 where
  pub info : Str → Answer Str
  pub replication_info : Str → Answer Str
  pub list_length : Str → Str → Answer ℤ

-- Run of redisNodeProbe: the node, and the result of the probe.
unfoldable pub redis_node_of : Str → Str → (Str → Answer ℤ) → Answer Str → RedisNode × ProbeResult
unfolding parse_redis_info info_get classify_redis class_text
redis_node_of ip target list_length (inr e) = (
  record (empty_node ip) {
    error = codes "redis info error: " ++ e.text;
    error_class = class_text (classify_redis (some e));
  },
  record { target = target; latency = pos 0; err = some e; err_class = classify_redis (some e) },
)
redis_node_of ip target list_length (inl out) =
    let info = parse_redis_info out in
    (
      record (empty_node ip) {
        version = info_get (codes "redis_version") info;
        role = info_get (codes "role") info;
        cluster_enabled = info_get (codes "cluster_enabled") info;
        used_memory = info_get (codes "used_memory") info;
        max_memory = info_get (codes "maxmemory") info;
        uptime_days = info_get (codes "uptime_in_days") info;
        connected_clients = info_get (codes "connected_clients") info;
        blocked_clients = info_get (codes "blocked_clients") info;
        celery_queue = length_or_zero (list_length (codes "celery"));
        monitor_queue = length_or_zero (list_length (codes "monitor"));
      },
      record { target = target; latency = pos 0; err = none; err_class = err_none },
    )

unfoldable pub probe_redis_node : RedisCalls → Str → Str → RedisNode × ProbeResult
unfolding redis_node_of join_host_port
probe_redis_node calls port ip =
    let target = join_host_port ip port in
    redis_node_of ip target (calls.list_length target) (calls.info target)

-- CollectRedisStandalone
unfoldable pub collect_redis_standalone : RedisCalls → Str → List Str → List RedisNode
unfolding probe_redis_node
collect_redis_standalone calls port ips = map (λ ip. (probe_redis_node calls port ip).0) ips

redis_tests :
    (parse_redis_info (codes "# Server\r\nrole: master \r\n:x\r\nrole:slave\r\n")
      ≡ (codes "role", codes "slave") ∷ [])
    × (parse_redis_info (codes "a:1\nb:2") ≡ (codes "a", codes "1\nb:2") ∷ [])
unfolding parse_redis_info insert str_eq drop
redis_tests = (refl, refl)
