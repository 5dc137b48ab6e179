-- ===== src/Collector/Redis/Sentinel.antt =====
-- collector/redis.go: the sentinels, and the master that they name.
use weops_inspect.Prelude.{
  ℕ, inl, inr, Bool, true, false, not, ◌||◌, Option, none, some, List, [], ◌∷◌, ◌++◌, map, ltb,
  ◌==◌, if◌then◌else◌, length, is_empty, count_if, Str, codes, str_eq,
}
use weops_inspect.Model.{unset, SentinelNodeStatus, SentinelClusterStatus}
use weops_inspect.Collector.Probe.{err_network, err_protocol, class_text, plain, Answer}
use weops_inspect.Collector.Redis.{classify_redis, join_host_port}

-- The answers of a sentinel to PING and to GetMasterAddrByName, and of a Redis node to PING.
pub record SentinelCalls : Type 0 where
  pub ping : Str → Answer Str
  pub master_addr : Str → Str → Answer (List Str)
  pub node_ping : Str → Answer Str

abbrev pub sentinel_at : Str → Str → SentinelNodeStatus
sentinel_at ip port = record {
  ip = ip;
  port = port;
  reachable = false;
  error = [];
  error_class = [];
  render_status = unset;
}

unfoldable pub ping_sentinel_of : Str → Str → Answer Str → SentinelNodeStatus
unfolding classify_redis class_text
ping_sentinel_of ip port (inr e) = record (sentinel_at ip port) {
  error = codes "ping error: " ++ e.text;
  error_class = class_text (classify_redis (some e));
}
ping_sentinel_of ip port (inl pong) =
    if str_eq pong (codes "PONG")
    then record (sentinel_at ip port) { reachable = true }
    else record (sentinel_at ip port) {
      error = codes "unexpected response: " ++ pong;
      error_class = class_text err_protocol;
    }

-- pingSentinel
unfoldable pub ping_sentinel : SentinelCalls → Str → Str → SentinelNodeStatus
unfolding ping_sentinel_of join_host_port
ping_sentinel calls port ip = ping_sentinel_of ip port (calls.ping (join_host_port ip port))

abbrev pub master_pair : Answer (List Str) → Answer (Str × Str)
master_pair (inr e) = inr e
master_pair (inl (ip ∷ port ∷ _)) = inl (ip, port)
master_pair (inl _) = inr (plain (codes "sentinel returned incomplete master addr"))

-- sentinelGetMaster
unfoldable pub sentinel_get_master : SentinelCalls → Str → Str → Str → Answer (Str × Str)
unfolding join_host_port
sentinel_get_master calls ip port master_name =
    master_pair (calls.master_addr (join_host_port ip port) master_name)

abbrev pub is_pong : Answer Str → Bool
is_pong (inl pong) = str_eq pong (codes "PONG")
is_pong (inr e) = false

-- redisPing
unfoldable pub redis_ping : SentinelCalls → Str → Str → Bool
unfolding join_host_port
redis_ping calls ip port = is_pong (calls.node_ping (join_host_port ip port))

-- The answer of one sentinel: the master's address, where it is one.
abbrev pub named_master : Answer (Str × Str) → Option (Str × Str)
named_master (inr e) = none
named_master (inl (ip, port)) = if is_empty ip then none else some (ip, port)

-- The master that a reachable sentinel names, or that of the later ones.
abbrev pub first_of : Bool → Option (Str × Str) → Option (Str × Str) → Option (Str × Str)
first_of true (some m) later = some m
first_of _ _ later = later

-- The loop over the sentinels: the first master that a reachable one names.
unfoldable pub discover : SentinelCalls → Str → List SentinelNodeStatus → Option (Str × Str)
unfolding sentinel_get_master
discover calls master_name [] = none
discover calls master_name (s ∷ ss) =
    let later = discover calls master_name ss in
    first_of s.reachable (named_master (sentinel_get_master calls s.ip s.port master_name)) later

abbrev pub sentinel_cluster : Str → List SentinelNodeStatus → SentinelClusterStatus
sentinel_cluster master_name sentinels = record {
  master_name = master_name;
  sentinels = sentinels;
  discovered_master = [];
  master_reachable = false;
  status = [];
  master_env_match = [];
  error = [];
  error_class = [];
  master_reachable_status = unset;
  master_env_match_status = unset;
  overall_status = unset;
}

-- DiscoveredMaster and MasterReachable
unfoldable pub with_master :
    SentinelCalls → Option (Str × Str) → SentinelClusterStatus → SentinelClusterStatus
unfolding join_host_port redis_ping
with_master calls none st = st
with_master calls (some (ip, port)) st = record st {
  discovered_master = join_host_port ip port;
  master_reachable = redis_ping calls ip port;
}

unfoldable pub sentinel_grade : ℕ → ℕ → SentinelClusterStatus → Str
sentinel_grade reachable total st =
    if is_empty st.discovered_master || not st.master_reachable
    then codes "critical"
    else if ltb reachable total
    then codes "warn"
    else codes "ok"

-- CollectRedisSentinel; the names are those of the environment or their defaults.
unfoldable pub collect_redis_sentinel :
    SentinelCalls → Str → Str → List Str → Option SentinelClusterStatus
unfolding ping_sentinel count_if with_master discover sentinel_grade class_text
collect_redis_sentinel calls master_name port ips =
    let sentinels = map (ping_sentinel calls port) ips in
    let reachable = count_if (λ s. s.reachable) sentinels in
    let st =
      with_master calls (discover calls master_name sentinels)
        (sentinel_cluster master_name sentinels) in
    if is_empty ips
    then none
    else if reachable == 0
    then some (record (sentinel_cluster master_name sentinels) {
      status = codes "critical";
      error = codes "no sentinel reachable";
      error_class = class_text err_network;
    })
    else some (record st { status = sentinel_grade reachable (length ips) st })
