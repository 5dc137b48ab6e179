-- ===== src/Collector/Mongo/Uri.antt =====
-- collector/mongo.go with collector/probe.go: the password in the URI of a replica set.
use weops_inspect.Prelude.{
  Option, none, ◌≡◌, refl, ap, ◌∙◌, inl, inr, true, some, List, [], ◌∷◌, ◌++◌, map, all, Str, codes,
}
use mathlib.Core.List.{append_assoc}
use weops_inspect.Config.Types.{Credentials}
use weops_inspect.Collector.Probe.{Failure, Answer, is_user, is_blank, is_secret, redact_dsn}
use weops_inspect.Collector.Probe.Redaction.{is_run, redact_dsn_hides}
use weops_inspect.Collector.Mongo.{
  MemberStatus, MongoCalls, mongo_uri, host_list, failed_mongo, mongo_cluster_of, connected_mongo,
  probe_mongo, collect_mongo,
}

-- Of the URI, redactDSN makes the URI with three stars in place of the
-- escaped password, where QueryEscape makes of the user and of the password a text that is not empty and
-- holds no colon, slash, at sign or blank.
mongo_uri-redacted :
    (query_escape : Str → Str) (user password hosts rs_name : Str)
    → is_run is_user (query_escape user) ≡ true
    → is_run is_secret (query_escape password) ≡ true
    → redact_dsn (mongo_uri query_escape user password hosts rs_name)
      ≡ codes "mongodb://"
        ++ (query_escape user ++ codes ":***@")
        ++ redact_dsn
            (hosts ++ codes "/?replicaSet=" ++ query_escape rs_name ++ codes "&authSource=admin")
unfolding mongo_uri
mongo_uri-redacted query_escape user password hosts rs_name u p =
    let rest =
      hosts ++ codes "/?replicaSet=" ++ query_escape rs_name ++ codes "&authSource=admin" in
    ap redact_dsn (simp (append_assoc))
    ∙ redact_dsn_hides (some (codes "mongodb")) (query_escape user) (query_escape password) rest
        (unfold all is_user is_blank in refl) u p

failed_mongo-target :
    (instance_name target step : Str) (e : Failure)
    → (failed_mongo instance_name target step e).1.target ≡ target
unfolding failed_mongo
failed_mongo-target instance_name target step e = refl

mongo_cluster_of-target :
    (instance_name target : Str) (a : Answer (List MemberStatus))
    → (mongo_cluster_of instance_name target a).1.target ≡ target
unfolding mongo_cluster_of
mongo_cluster_of-target instance_name target (inr e) =
    failed_mongo-target instance_name target (codes "replSetGetStatus error: ") e
mongo_cluster_of-target instance_name target (inl members) = refl

connected_mongo-target :
    (instance_name target : Str) (o : Option Failure) (a : Answer (List MemberStatus))
    → (connected_mongo instance_name target o a).1.target ≡ target
unfolding connected_mongo
connected_mongo-target instance_name target (some e) a =
    failed_mongo-target instance_name target (codes "mongo connect error: ") e
connected_mongo-target instance_name target none a = mongo_cluster_of-target instance_name target a

probe_mongo-target :
    (calls : MongoCalls) (instance_name uri : Str)
    → (probe_mongo calls instance_name uri).1.target ≡ redact_dsn uri
unfolding probe_mongo
probe_mongo-target calls instance_name uri =
    connected_mongo-target instance_name (redact_dsn uri) (calls.connect uri) (calls.members uri)

-- The result of the probe that CollectMongo returns names one target, whatever the driver answers: the
-- URI of the replica set with three stars in place of the escaped password, where QueryEscape makes of
-- the user and of the password a text that is not empty and holds no colon, slash, at sign or blank.
pub collect_mongo-redacted :
    (calls : MongoCalls) (creds : Credentials) (port rs_name ip : Str) (ips : List Str)
    → is_run is_user (calls.query_escape creds.mongodb_user) ≡ true
    → is_run is_secret (calls.query_escape creds.mongodb_password) ≡ true
    → map (λ r. r.1.target) (collect_mongo calls creds port rs_name (ip ∷ ips))
      ≡ (codes "mongodb://"
          ++ (calls.query_escape creds.mongodb_user ++ codes ":***@")
          ++ redact_dsn (
              host_list port (ip ∷ ips)
              ++ codes "/?replicaSet="
              ++ calls.query_escape rs_name
              ++ codes "&authSource=admin"))
        ∷ []
unfolding collect_mongo
collect_mongo-redacted calls creds port rs_name ip ips u p =
    ap (λ t. t ∷ [])
      (probe_mongo-target calls _ _
        ∙ mongo_uri-redacted calls.query_escape creds.mongodb_user creds.mongodb_password
            (host_list port (ip ∷ ips)) rs_name u p)
