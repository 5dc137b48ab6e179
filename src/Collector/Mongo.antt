-- ===== src/Collector/Mongo.antt =====
-- collector/mongo.go: the replica set of MongoDB. The driver and url.QueryEscape are parameters.
use weops_inspect.Prelude.{
  ℕ, zero, suc, ◌+◌, ◌-◌, ◌*◌, ◌/◌, ◌%◌, ◌^◌, ◌≤◌, ◌<◌, ◌≡◌, refl, sym, ap, ◌∙◌, ◌≢◌, ◌↔◌, ◌⊎◌, inl,
  inr, Bool, true, false, not, ◌&&◌, ◌||◌, Option, none, some, List, [], ◌∷◌, ◌++◌, map, arith, ltb,
  leb, ◌==◌, if◌then◌else◌, ltb→lt, lt→ltb, leb→le, ==_iff, tests, Bool-cases, Option-cases, length,
  length-append, filter, any, all, take, drop, replicate, is_empty, filter-true, count_if,
  length-filter, count_if-append, any-append, all-append, ℤ, pos, negsuc, pos_part, neg_part, sub_ℕ,
  ◌≤ℤ◌, ltb_ℤ, leb_ℤ, eqb_ℤ, succ_int, Str, codes, str_eq, str_eq_iff, str_eq_refl, str_eq_sym,
  str_lt, str_lt_irrefl, str_lt_trans, str_lt_total, Dict, lookup, insert, lookup-insert, get_or,
  FloatOps,
}
pub mod Uri
use weops_inspect.Prelude.Strings.{join}
use weops_inspect.Config.Types.{Credentials}
use weops_inspect.Model.{unset, MongoMember, MongoCluster}
use weops_inspect.Collector.Probe.{
  ErrorClass, err_none, err_auth, err_protocol, class_text, Failure, classify, redact_dsn, wrap_err,
  ProbeResult, Answer,
}

-- classifyMongo
unfoldable pub classify_mongo_failure : Failure → ErrorClass
unfolding classify
classify_mongo_failure e = elim e.mongo_code [
  | none ↦ classify (some e)
  | some code ↦ if eqb_ℤ code (pos 13) || eqb_ℤ code (pos 18) then err_auth else err_protocol
]

unfoldable pub classify_mongo : Option Failure → ErrorClass
unfolding classify_mongo_failure
classify_mongo none = err_none
classify_mongo (some e) = classify_mongo_failure e

-- hostList
unfoldable pub host_list : Str → List Str → Str
unfolding join
host_list port ips = join (codes ",") (map (λ ip. ip ++ codes ":" ++ port) ips)

unfoldable pub mongo_instance : Str → Str → Str
mongo_instance hosts rs_name = hosts ++ codes "/?replicaSet=" ++ rs_name

-- A member of the answer to replSetGetStatus.
pub record MemberStatus : Type 0 where
  pub name : Str
  pub health : ℤ
  pub state_str : Str
  pub uptime : ℤ
  pub syncing_to : Str
  pub sync_source_host : Str

unfoldable pub member_of : MemberStatus → MongoMember
member_of m = record {
  name = m.name;
  health = m.health;
  state_str = m.state_str;
  uptime = m.uptime;
  syncing_to = m.syncing_to;
  sync_source_host = m.sync_source_host;
  health_status = unset;
}

-- url.QueryEscape, and the answers of mongo.Connect and replSetGetStatus for a URI.
pub record MongoCalls : Type 0 where
  pub query_escape : Str → Str
  pub connect : Str → Option Failure
  pub members : Str → Answer (List MemberStatus)

unfoldable pub mongo_uri : (Str → Str) → Str → Str → Str → Str → Str
mongo_uri query_escape user password hosts rs_name =
    codes "mongodb://"
    ++ query_escape user
    ++ codes ":"
    ++ query_escape password
    ++ codes "@"
    ++ hosts
    ++ codes "/?replicaSet="
    ++ query_escape rs_name
    ++ codes "&authSource=admin"

abbrev pub empty_cluster : Str → MongoCluster
empty_cluster instance_name = record {
  instance_name = instance_name;
  members = [];
  error = [];
  error_class = [];
}

unfoldable pub failed_mongo : Str → Str → Str → Failure → MongoCluster × ProbeResult
unfolding redact_dsn wrap_err classify_mongo class_text
failed_mongo instance_name target step e = (
  record (empty_cluster instance_name) {
    error = step ++ redact_dsn e.text;
    error_class = class_text (classify_mongo (some e));
  },
  record {
    target = target;
    latency = pos 0;
    err = wrap_err (some e);
    err_class = classify_mongo (some e);
  },
)

unfoldable pub mongo_cluster_of :
    Str → Str → Answer (List MemberStatus) → MongoCluster × ProbeResult
unfolding failed_mongo member_of
mongo_cluster_of instance_name target (inr e) =
    failed_mongo instance_name target (codes "replSetGetStatus error: ") e
mongo_cluster_of instance_name target (inl members) = (
  record (empty_cluster instance_name) { members = map member_of members },
  record { target = target; latency = pos 0; err = none; err_class = err_none },
)

-- The rest of mongoProbe's Run, by the error of mongo.Connect and the answer to replSetGetStatus.
unfoldable pub connected_mongo :
    Str → Str → Option Failure → Answer (List MemberStatus) → MongoCluster × ProbeResult
unfolding failed_mongo mongo_cluster_of
connected_mongo instance_name target (some e) members =
    failed_mongo instance_name target (codes "mongo connect error: ") e
connected_mongo instance_name target none members = mongo_cluster_of instance_name target members

-- Run of mongoProbe.
unfoldable pub probe_mongo : MongoCalls → Str → Str → MongoCluster × ProbeResult
unfolding redact_dsn connected_mongo
probe_mongo calls instance_name uri =
    connected_mongo instance_name (redact_dsn uri) (calls.connect uri) (calls.members uri)

-- CollectMongo: the clusters, and the results of the probe.
unfoldable pub collect_mongo :
    MongoCalls → Credentials → Str → Str → List Str → List (MongoCluster × ProbeResult)
unfolding probe_mongo host_list mongo_instance mongo_uri
collect_mongo calls creds port rs_name [] = []
collect_mongo calls creds port rs_name (ip ∷ ips) =
    let hosts = host_list port (ip ∷ ips) in
    probe_mongo calls (mongo_instance hosts rs_name)
      (mongo_uri calls.query_escape creds.mongodb_user creds.mongodb_password hosts rs_name)
    ∷ []
