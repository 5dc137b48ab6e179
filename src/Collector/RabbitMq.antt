-- ===== src/Collector/RabbitMq.antt =====
-- collector/rabbitmq.go: the state of RabbitMQ. The answers of curl and json.Unmarshal are parameters.
use weops_inspect.Prelude.{
  ℕ, zero, suc, ◌+◌, ◌-◌, ◌*◌, ◌/◌, ◌%◌, ◌^◌, ◌≤◌, ◌<◌, ◌≡◌, refl, sym, ap, ◌∙◌, ◌≢◌, ◌↔◌, ◌⊎◌, inl,
  inr, Bool, true, false, not, ◌&&◌, ◌||◌, Option, none, some, List, [], ◌∷◌, ◌++◌, map, arith, ltb,
  leb, ◌==◌, if◌then◌else◌, ltb→lt, lt→ltb, leb→le, ==_iff, tests, Bool-cases, Option-cases, length,
  length-append, filter, any, all, take, drop, replicate, is_empty, filter-true, count_if,
  length-filter, count_if-append, any-append, all-append, ℤ, pos, negsuc, pos_part, neg_part, sub_ℕ,
  ◌≤ℤ◌, ltb_ℤ, leb_ℤ, eqb_ℤ, succ_int, Str, codes, str_eq, str_eq_iff, str_eq_refl, str_eq_sym,
  str_lt, str_lt_irrefl, str_lt_trans, str_lt_total, Dict, lookup, insert, lookup-insert, get_or,
  FloatOps,
}
pub mod Queues
use weops_inspect.Prelude.Strings.{contains, has_prefix, trim_space}
use weops_inspect.Decimal.{itoa}
use weops_inspect.Model.{unset, RabbitMqAlarm, RabbitMqQueue, RabbitMqVhostSummary, RabbitMqStatus}
use weops_inspect.Notify.Signature.{sort_strings}
use weops_inspect.Collector.Probe.{err_unknown, class_text, Failure, plain, Answer}
use weops_inspect.Collector.Json.{
  Json, json_number, json_get, json_str, json_flag, is_filled_array, json_int, curl_err_class,
}
use weops_inspect.Collector.Arithmetic.{wrap_int, add_int, quot_int, rem_int, uptime_text}

-- rmqAPI: the answer of curl, where it is JSON. An exit error whose stderr is not empty becomes a plain one.
unfoldable pub rmq_failure : Failure → Failure
unfolding trim_space
rmq_failure e = elim e.exit_code [
  | none ↦ e
  | some code ↦ if is_empty e.stderr then e else plain (e.text ++ codes ": " ++ trim_space e.stderr)
]

unfoldable pub is_json_text : Str → Bool
unfolding has_prefix
is_json_text trimmed = has_prefix (codes "[") trimmed || has_prefix (codes "{") trimmed

unfoldable pub rmq_api : Str → Answer Str → Answer Str
unfolding rmq_failure is_json_text trim_space
rmq_api endpoint (inr e) = inr (rmq_failure e)
rmq_api endpoint (inl out) =
    if is_json_text (trim_space out)
    then inl out
    else inr (plain (codes "rabbitmq api " ++ endpoint ++ codes ": non-JSON response"))

abbrev pub empty_status : RabbitMqStatus
empty_status = record {
  cluster_partition = false;
  uptime = [];
  total_connections = pos 0;
  abnormal_connections = pos 0;
  total_channels = pos 0;
  node_alarms = [];
  vhost_summary = [];
  exceeding_queues = [];
  no_consumer_queues = [];
  queues_error = [];
  error = [];
  error_class = [];
  partition_status = unset;
  abnormal_conn_status = unset;
}

module _ {F : Type 0} ⦃fl : FloatOps F⦄ where
  -- The uptime of a node, or the text before.
  unfoldable pub uptime_or : Str → Json F → Str
  unfolding uptime_text
  uptime_or old (json_number x) =
      if is_empty old then uptime_text (fl.to_int (fl.over x (fl.of_int (pos 1000)))) else old
  uptime_or old _ = old

  -- One node of the loop.
  unfoldable pub node_step : RabbitMqStatus → Dict (Json F) → RabbitMqStatus
  unfolding json_get json_str json_flag is_filled_array uptime_or
  node_step st n =
      let mem = json_flag (json_get (codes "mem_alarm") n) in
      let disk = json_flag (json_get (codes "disk_free_alarm") n) in
      let alarm : RabbitMqAlarm = record {
        node = json_str (json_get (codes "name") n);
        mem_alarm = mem;
        disk_free_alarm = disk;
        mem_status = unset;
        disk_free_status = unset;
      } in
      record st {
        node_alarms = if mem || disk then st.node_alarms ++ alarm ∷ [] else st.node_alarms;
        cluster_partition =
            st.cluster_partition || is_filled_array (json_get (codes "partitions") n);
        uptime = uptime_or st.uptime (json_get (codes "uptime") n);
      }

  unfoldable pub node_steps : RabbitMqStatus → List (Dict (Json F)) → RabbitMqStatus
  unfolding node_step
  node_steps st [] = st
  node_steps st (n ∷ ns) = node_steps (node_step st n) ns

  -- A connection whose state is known and not "running".
  unfoldable pub is_abnormal_conn : Dict (Json F) → Bool
  unfolding json_get json_str
  is_abnormal_conn c =
      let state = json_str (json_get (codes "state") c) in
      not (str_eq state (codes "running")) && not (is_empty state)

  unfoldable pub with_conns : Option (List (Dict (Json F))) → RabbitMqStatus → RabbitMqStatus
  unfolding is_abnormal_conn count_if
  with_conns none st = st
  with_conns (some conns) st = record st {
    total_connections = pos (length conns);
    abnormal_connections = pos (count_if is_abnormal_conn conns);
  }

  -- A queue that the loop passes over.
  unfoldable pub is_skipped : Dict (Json F) → Bool
  unfolding json_get json_str has_prefix
  is_skipped q =
      str_eq (json_str (json_get (codes "vhost") q)) (codes "bk_usermgr")
      || has_prefix (codes "celeryev") (json_str (json_get (codes "name") q))

  unfoldable pub queue_of : Dict (Json F) → RabbitMqQueue
  unfolding json_get json_str json_int json_flag
  queue_of q = record {
    vhost = json_str (json_get (codes "vhost") q);
    queue = json_str (json_get (codes "name") q);
    message_count = json_int (json_get (codes "messages") q);
    consumers = json_int (json_get (codes "consumers") q);
    durable = json_flag (json_get (codes "durable") q);
    message_status = unset;
    consumer_status = unset;
  }

abbrev pub summary_or : Str → Option RabbitMqVhostSummary → RabbitMqVhostSummary
summary_or vhost none = record {
  vhost = vhost;
  queues = pos 0;
  messages = pos 0;
  consumers = pos 0;
}
summary_or vhost (some agg) = agg

-- The numbers of a queue added to its vhost.
unfoldable pub add_to_summary :
    RabbitMqQueue → Dict RabbitMqVhostSummary → Dict RabbitMqVhostSummary
unfolding lookup insert add_int
add_to_summary q sums =
    let agg = summary_or q.vhost (lookup q.vhost sums) in
    insert q.vhost
      (record agg {
        queues = succ_int agg.queues;
        messages = add_int agg.messages q.message_count;
        consumers = add_int agg.consumers q.consumers;
      })
      sums

unfoldable pub is_exceeding : ℤ → RabbitMqQueue → Bool
is_exceeding threshold q = leb_ℤ threshold q.message_count

unfoldable pub lacks_consumer : List Str → RabbitMqQueue → Bool
unfolding contains
lacks_consumer blacklist q =
    eqb_ℤ q.consumers (pos 0) && ltb_ℤ (pos 0) q.message_count && not (contains q.vhost blacklist)

-- The state of the loop over the queues.
pub record QueueScan : Type 0 where
  pub sums : Dict RabbitMqVhostSummary
  pub exceeding : List RabbitMqQueue
  pub no_consumer : List RabbitMqQueue

module _ {F : Type 0} ⦃fl : FloatOps F⦄ where
  unfoldable pub queue_step : ℤ → List Str → QueueScan → Dict (Json F) → QueueScan
  unfolding is_skipped queue_of add_to_summary is_exceeding lacks_consumer
  queue_step threshold blacklist s q =
      let info = queue_of q in
      if is_skipped q then s else record {
        sums = add_to_summary info s.sums;
        exceeding = if is_exceeding threshold info then s.exceeding ++ info ∷ [] else s.exceeding;
        no_consumer =
            if lacks_consumer blacklist info then s.no_consumer ++ info ∷ [] else s.no_consumer;
      }

  unfoldable pub queue_steps : ℤ → List Str → QueueScan → List (Dict (Json F)) → QueueScan
  unfolding queue_step
  queue_steps threshold blacklist s [] = s
  queue_steps threshold blacklist s (q ∷ qs) =
      queue_steps threshold blacklist (queue_step threshold blacklist s q) qs

-- The sums of the vhosts, in the order of their names.
unfoldable pub summaries : Dict RabbitMqVhostSummary → List RabbitMqVhostSummary
unfolding lookup sort_strings
summaries sums = map (λ v. summary_or v (lookup v sums)) (sort_strings (map (λ e. e.0) sums))

module _ {F : Type 0} ⦃fl : FloatOps F⦄ where
  unfoldable pub with_queues :
      ℤ → List Str → Option (List (Dict (Json F))) → RabbitMqStatus → RabbitMqStatus
  unfolding queue_steps summaries
  with_queues threshold blacklist none st = st
  with_queues threshold blacklist (some queues) st =
      let scan =
        queue_steps threshold blacklist (record { sums = []; exceeding = []; no_consumer = [] })
          queues in
      record st {
        vhost_summary = summaries scan.sums;
        exceeding_queues = scan.exceeding;
        no_consumer_queues = scan.no_consumer;
      }

-- The output of curl for an endpoint, and json.Unmarshal of a list of objects and of a list of any
-- values, of which only the length is used: none for an error.
pub record RabbitMqCalls (F : Type 0) : Type 0 where
  pub has_curl : Bool
  pub curl : Str → Answer Str
  pub decode_list : Str → Option (List (Dict (Json F)))
  pub decode_length : Str → Option ℕ

abbrev pub nodes_endpoint : Str
nodes_endpoint = codes "nodes?columns=name,mem_alarm,disk_free_alarm,partitions,uptime"

abbrev pub conns_endpoint : Str
conns_endpoint = codes "connections?columns=state"

abbrev pub chans_endpoint : Str
chans_endpoint = codes "channels?columns=name"

abbrev pub queues_endpoint : Str
queues_endpoint =
    codes
      "queues?disable_stats=true&enable_queue_totals=true&columns=name,vhost,messages,consumers,durable"

abbrev pub decoded_api {ℓ} : {A : Type ℓ} → (Str → Option A) → Answer Str → Option A
decoded_api decode (inl out) = decode out
decoded_api decode (inr e) = none

unfoldable pub with_channels : Option ℕ → RabbitMqStatus → RabbitMqStatus
with_channels none st = st
with_channels (some n) st = record st { total_channels = pos n }

module _ {F : Type 0} ⦃fl : FloatOps F⦄ where
  unfoldable pub with_nodes : Option (List (Dict (Json F))) → RabbitMqStatus → RabbitMqStatus
  unfolding node_steps
  with_nodes none st = st
  with_nodes (some nodes) st = node_steps st nodes

  unfoldable pub queue_section :
      RabbitMqCalls F → ℤ → List Str → Answer Str → RabbitMqStatus → RabbitMqStatus
  unfolding with_queues
  queue_section calls threshold blacklist (inr e) st = record st { queues_error = e.text }
  queue_section calls threshold blacklist (inl out) st =
      with_queues threshold blacklist (calls.decode_list out) st

  -- Run of rmqProbe, on the answer for the nodes.
  unfoldable pub run_rmq_probe : RabbitMqCalls F → ℤ → List Str → Answer Str → RabbitMqStatus
  unfolding curl_err_class class_text with_nodes with_conns with_channels queue_section rmq_api
  run_rmq_probe calls threshold blacklist (inr e) = record empty_status {
    error = e.text;
    error_class = class_text (curl_err_class (some e));
  }
  run_rmq_probe calls threshold blacklist (inl out) =
      let api : Str → Answer Str = λ endpoint. rmq_api endpoint (calls.curl endpoint) in
      queue_section calls threshold blacklist (api queues_endpoint) (
        with_channels (decoded_api calls.decode_length (api chans_endpoint)) (
          with_conns (decoded_api calls.decode_list (api conns_endpoint))
            (with_nodes (calls.decode_list out) empty_status)))

  -- CollectRabbitMQ; only the first address is asked.
  unfoldable pub collect_rabbitmq :
      RabbitMqCalls F → ℤ → List Str → List Str → Option RabbitMqStatus
  unfolding run_rmq_probe class_text rmq_api
  collect_rabbitmq calls threshold blacklist [] = none
  collect_rabbitmq calls threshold blacklist (ip ∷ ips) =
      if calls.has_curl
      then some (
          run_rmq_probe calls threshold blacklist
            (rmq_api nodes_endpoint (calls.curl nodes_endpoint)))
      else some (record empty_status {
        error = codes "curl CLI not available";
        error_class = class_text err_unknown;
      })
