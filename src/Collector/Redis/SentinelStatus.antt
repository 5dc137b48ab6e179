-- ===== src/Collector/Redis/SentinelStatus.antt =====
-- collector/redis.go: the status of the sentinels as a whole, in terms of what they answer.
use weops_inspect.Prelude.{Bool, Option, none, some, List, [], ◌∷◌, if◌then◌else◌, Str, codes}
use weops_inspect.Model.{SentinelClusterStatus}
use weops_inspect.Collector.Redis.{join_host_port}
use weops_inspect.Collector.Redis.Sentinel.{
  SentinelCalls, first_of, named_master, sentinel_get_master, redis_ping, is_pong,
}

-- A sentinel that answers PONG.
unfoldable pub answers : SentinelCalls → Str → Str → Bool
unfolding join_host_port
answers calls port ip = is_pong (calls.ping (join_host_port ip port))

-- The master that the first of the answering sentinels names that names one.
unfoldable pub first_master : SentinelCalls → Str → Str → List Str → Option (Str × Str)
unfolding answers sentinel_get_master
first_master calls name port [] = none
first_master calls name port (ip ∷ ips) =
    let later = first_master calls name port ips in
    first_of (answers calls port ip) (named_master (sentinel_get_master calls ip port name)) later

unfoldable pub status_of_master : SentinelCalls → Bool → Option (Str × Str) → Str
unfolding redis_ping
status_of_master calls complete none = codes "critical"
status_of_master calls complete (some (ip, port)) =
    if redis_ping calls ip port
    then (if complete then codes "ok" else codes "warn")
    else codes "critical"

abbrev pub status_text : Option SentinelClusterStatus → Option Str
status_text none = none
status_text (some s) = some s.status
