-- ===== src/Collector/Es.antt =====
-- collector/es.go: the clusters of Elasticsearch. The answers of curl and json.Unmarshal are parameters.
use weops_inspect.Prelude.{
  ℕ, zero, suc, ◌+◌, ◌-◌, ◌*◌, ◌/◌, ◌%◌, ◌^◌, ◌≤◌, ◌<◌, ◌≡◌, refl, sym, ap, ◌∙◌, ◌≢◌, ◌↔◌, ◌⊎◌, inl,
  inr, Bool, true, false, not, ◌&&◌, ◌||◌, Option, none, some, List, [], ◌∷◌, ◌++◌, map, arith, ltb,
  leb, ◌==◌, if◌then◌else◌, ltb→lt, lt→ltb, leb→le, ==_iff, tests, Bool-cases, Option-cases, length,
  length-append, filter, any, all, take, drop, replicate, is_empty, filter-true, count_if,
  length-filter, count_if-append, any-append, all-append, ℤ, pos, negsuc, pos_part, neg_part, sub_ℕ,
  ◌≤ℤ◌, ltb_ℤ, leb_ℤ, eqb_ℤ, succ_int, Str, codes, str_eq, str_eq_iff, str_eq_refl, str_eq_sym,
  str_lt, str_lt_irrefl, str_lt_trans, str_lt_total, Dict, lookup, insert, lookup-insert, get_or,
  FloatOps,
}
pub mod Leader
use weops_inspect.Prelude.Strings.{has_substring}
use weops_inspect.Model.{unset, EsNode, EsNodeReach, EsCluster}
use weops_inspect.Collector.Probe.{err_network, err_unknown, class_text, Failure, Answer}
use weops_inspect.Collector.Redis.{join_host_port}
use weops_inspect.Collector.Json.{
  Json, json_get, json_str, json_int, json_float, json_int_from_str, curl_err_class,
  curl_err_detail,
}

-- probeES7Nodes, for one address: what GET / answers.
unfoldable pub reach_of : Str → Answer Str → EsNodeReach
unfolding curl_err_detail
reach_of ip (inl body) = record { ip = ip; status = codes "ok"; detail = []; render_status = unset }
reach_of ip (inr e) = record {
  ip = ip;
  status = codes "unreachable";
  detail = curl_err_detail e;
  render_status = unset;
}

unfoldable pub probe_es_nodes : (Str → Answer Str) → List Str → List EsNodeReach
unfolding reach_of
probe_es_nodes get_root ips = map (λ ip. reach_of ip (get_root ip)) ips

-- The first node that answers, "" where there is none.
unfoldable pub leader_of : List EsNodeReach → Str
leader_of [] = []
leader_of (r ∷ rs) =
    let later = leader_of rs in if str_eq r.status (codes "ok") then r.ip else later

module _ {F : Type 0} ⦃fl : FloatOps F⦄ where
  abbrev pub empty_cluster : Str → List EsNodeReach → EsCluster F
  empty_cluster instance_name reach = record {
    instance_name = instance_name;
    cluster_name = [];
    status = [];
    number_of_nodes = pos 0;
    number_of_data_nodes = pos 0;
    active_primary_shards = pos 0;
    active_shards = pos 0;
    unassigned_shards = pos 0;
    pending_tasks = pos 0;
    active_shards_percent = fl.zero_float;
    nodes = [];
    node_reachability = reach;
    error = [];
    error_class = [];
    health_status = unset;
    unassigned_status = unset;
    pending_status = unset;
  }

  -- The fields of _cluster/health, none where the answer is no JSON object.
  unfoldable pub with_health : Option (Dict (Json F)) → EsCluster F → EsCluster F
  unfolding json_get json_str json_int json_float
  with_health none c = c
  with_health (some m) c = record c {
    cluster_name = json_str (json_get (codes "cluster_name") m);
    status = json_str (json_get (codes "status") m);
    number_of_nodes = json_int (json_get (codes "number_of_nodes") m);
    number_of_data_nodes = json_int (json_get (codes "number_of_data_nodes") m);
    active_primary_shards = json_int (json_get (codes "active_primary_shards") m);
    active_shards = json_int (json_get (codes "active_shards") m);
    unassigned_shards = json_int (json_get (codes "unassigned_shards") m);
    pending_tasks = json_int (json_get (codes "number_of_pending_tasks") m);
    active_shards_percent =
        json_float c.active_shards_percent (json_get (codes "active_shards_percent_as_number") m);
  }

  -- A row of _cat/nodes.
  unfoldable pub es_node_of : Dict (Json F) → EsNode F
  unfolding json_get json_str json_int_from_str has_substring
  es_node_of n =
      let text : Str → Str = λ key. json_str (json_get key n) in
      record {
        ip = text (codes "ip");
        heap_percent = json_int_from_str (text (codes "heap.percent"));
        ram_percent = json_int_from_str (text (codes "ram.percent"));
        cpu = json_int_from_str (text (codes "cpu"));
        load_1m = (fl.parse_float (text (codes "load_1m"))).0;
        load_5m = (fl.parse_float (text (codes "load_5m"))).0;
        load_15m = (fl.parse_float (text (codes "load_15m"))).0;
        role =
            if has_substring (codes "m") (text (codes "node.role"))
            then codes "master"
            else codes "data";
        heap_status = unset;
        ram_status = unset;
      }

  unfoldable pub with_nodes : Option (List (Dict (Json F))) → EsCluster F → EsCluster F
  unfolding es_node_of
  with_nodes none c = c
  with_nodes (some rows) c = record c { nodes = c.nodes ++ map es_node_of rows }

-- The output of an answer, where it has one that is decoded.
abbrev pub decoded {ℓ} : {A : Type ℓ} → (Str → Option A) → Answer Str → Option A
decoded decode (inl out) = decode out
decoded decode (inr e) = none

-- What the three GETs answer for an address, and what json.Unmarshal makes of an object and of a list of
-- objects: none for an error.
pub record EsCalls (F : Type 0) : Type 0 where
  pub has_curl : Bool
  pub get_root : Str → Answer Str
  pub get_health : Str → Answer Str
  pub get_nodes : Str → Answer Str
  pub decode_object : Str → Option (Dict (Json F))
  pub decode_list : Str → Option (List (Dict (Json F)))

module _ {F : Type 0} ⦃fl : FloatOps F⦄ where
  -- Run of esProbe, on the answer of _cluster/health.
  unfoldable pub run_es_probe : EsCalls F → Str → Answer Str → EsCluster F → EsCluster F
  unfolding with_health with_nodes curl_err_class class_text
  run_es_probe calls host (inr e) c = record c {
    error = codes "curl error: " ++ e.text;
    error_class = class_text (curl_err_class (some e));
  }
  run_es_probe calls host (inl out) c =
      with_nodes (decoded calls.decode_list (calls.get_nodes host))
        (with_health (calls.decode_object out) c)

  -- After the probe of the nodes.
  unfoldable pub es_cluster_of : EsCalls F → Str → List EsNodeReach → EsCluster F
  unfolding leader_of run_es_probe join_host_port class_text
  es_cluster_of calls first reach =
      let leader = leader_of reach in
      if is_empty leader
      then record (empty_cluster (join_host_port first (codes "9200")) reach) {
        error = codes "all nodes unreachable";
        error_class = class_text err_network;
      }
      else run_es_probe calls leader (calls.get_health leader)
          (empty_cluster (join_host_port leader (codes "9200")) reach)

  -- CollectES
  unfoldable pub collect_es : EsCalls F → List Str → List (EsCluster F)
  unfolding probe_es_nodes es_cluster_of class_text
  collect_es calls [] = []
  collect_es calls (ip ∷ ips) =
      if calls.has_curl
      then es_cluster_of calls ip (probe_es_nodes calls.get_root (ip ∷ ips)) ∷ []
      else record (empty_cluster [] []) {
        error = codes "curl CLI not available";
        error_class = class_text err_unknown;
      }
        ∷ []
