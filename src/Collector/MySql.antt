-- ===== src/Collector/MySql.antt =====
-- collector/mysql.go: the nodes of MySQL. The answers of the driver are parameters.
use weops_inspect.Prelude.{
  inl, inr, ◌||◌, Option, none, some, List, [], ◌∷◌, ◌++◌, map, ◌==◌, if◌then◌else◌, length, ℤ, pos,
  eqb_ℤ, Str, codes, Dict,
}
use weops_inspect.Prelude.Strings.{equal_fold}
use weops_inspect.Model.{MySqlNode, MySqlCluster}
use weops_inspect.Collector.Probe.{
  ErrorClass, err_none, err_auth, err_protocol, class_text, Failure, classify, redact_dsn, wrap_err,
  ProbeResult, Answer,
}

-- classifyMySQL
unfoldable pub classify_mysql_failure : Failure → ErrorClass
unfolding classify
classify_mysql_failure e = elim e.mysql_number [
  | none ↦ classify (some e)
  | some number ↦
      if (number == 1045) || (number == 1044) || (number == 1698) then err_auth else err_protocol
]

unfoldable pub classify_mysql : Option Failure → ErrorClass
unfolding classify_mysql_failure
classify_mysql none = err_none
classify_mysql (some e) = classify_mysql_failure e

-- What a query answers: its columns, its rows as Scan reads them, and rows.Err() at their end.
pub record RowSet : Type 0 where
  pub columns : Answer (List Str)
  pub rows : List (Answer (List Str))
  pub last : Option Failure

-- The columns with the values of a row.
abbrev pub zip_row : List Str → List Str → Dict Str
zip_row [] row = []
zip_row (c ∷ cols) [] = (c, []) ∷ zip_row cols []
zip_row (c ∷ cols) (v ∷ row) = (c, v) ∷ zip_row cols row

abbrev pub first_row : Answer (List Str) → List (Answer (List Str)) → Answer (Dict Str)
first_row (inr e) rows = inr e
first_row (inl cols) [] = inl []
first_row (inl cols) (inr e ∷ rows) = inr e
first_row (inl cols) (inl row ∷ rows) = inl (zip_row cols row)

-- queryStatusVertical: the first row, column by column; no column where there is no row.
unfoldable pub query_status_vertical : Answer RowSet → Answer (Dict Str)
query_status_vertical (inr e) = inr e
query_status_vertical (inl set) = first_row set.columns set.rows

-- countRows
unfoldable pub count_rows : Answer RowSet → Answer ℤ
count_rows (inr e) = inr e
count_rows (inl set) = elim set.last [ none ↦ inl (pos (length set.rows)) | some e ↦ inr e ]

-- The value of the first column of this name.
unfoldable pub column_named : Str → Dict Str → Option Str
unfolding equal_fold
column_named name [] = none
column_named name ((c, v) ∷ row) = if equal_fold c name then some v else column_named name row

-- pickFirst
unfoldable pub pick_first : Dict Str → List Str → Str
unfolding column_named
pick_first row [] = []
pick_first row (name ∷ names) = elim (column_named name row) [
  | some v ↦ v
  | none ↦ pick_first row names
]

-- SHOW SLAVE STATUS, and SHOW REPLICA STATUS where it fails or has no row.
abbrev pub status_or : Answer (Dict Str) → Answer (Dict Str) → Answer (Dict Str)
status_or (inr e) replica = replica
status_or (inl []) replica = replica
status_or (inl (c ∷ row)) replica = inl (c ∷ row)

-- The variables that Scan reads; a NULL is none.
pub record MySqlVariables : Type 0 where
  pub version : Str
  pub max_connections : Option ℤ
  pub expire_logs_days : Option ℤ
  pub max_allowed_packet : Option ℤ
  pub slow_query_log : Option ℤ
  pub character_set : Str
  pub buffer_pool_size : Option ℤ
  pub buffer_pool_instances : Option ℤ
  pub innodb_io_capacity : Option ℤ
  pub innodb_read_io_threads : Option ℤ
  pub innodb_write_io_threads : Option ℤ
  pub interactive_timeout : Option ℤ
  pub table_open_cache : Option ℤ
  pub wait_timeout : Option ℤ

-- What the driver answers for a node: sql.Open, Ping, the variables, read_only, and a query by its text.
pub record MySqlCalls : Type 0 where
  pub open_db : Str → Option Failure
  pub ping : Str → Option Failure
  pub variables : Str → Answer MySqlVariables
  pub read_only : Str → Answer ℤ
  pub query : Str → Str → Answer RowSet

abbrev pub empty_mysql : Str → MySqlNode
empty_mysql ip = record {
  ip = ip;
  version = [];
  max_connections = pos 0;
  expire_logs_days = pos 0;
  max_allowed_packet = pos 0;
  role = [];
  binlog_count = pos 0;
  slave_io_state = [];
  slave_sql_state = [];
  slow_query_log = [];
  character_set = [];
  buffer_pool_size = pos 0;
  buffer_pool_instances = pos 0;
  innodb_io_capacity = pos 0;
  innodb_read_io_threads = pos 0;
  innodb_write_io_threads = pos 0;
  interactive_timeout = pos 0;
  table_open_cache = pos 0;
  wait_timeout = pos 0;
  error = [];
  error_class = [];
}

-- A node that failed, with a word on the step that did.
unfoldable pub failed_mysql : Str → Str → Str → Failure → MySqlNode × ProbeResult
unfolding redact_dsn wrap_err classify_mysql class_text
failed_mysql ip target step e = (
  record (empty_mysql ip) {
    error = step ++ redact_dsn e.text;
    error_class = class_text (classify_mysql (some e));
  },
  record {
    target = target;
    latency = pos 0;
    err = wrap_err (some e);
    err_class = classify_mysql (some e);
  },
)

abbrev pub int64_of : Option ℤ → ℤ
int64_of none = pos 0
int64_of (some n) = n

unfoldable pub with_variables : MySqlVariables → MySqlNode → MySqlNode
with_variables v node = record node {
  version = v.version;
  max_connections = int64_of v.max_connections;
  expire_logs_days = int64_of v.expire_logs_days;
  max_allowed_packet = int64_of v.max_allowed_packet;
  slow_query_log = if eqb_ℤ (int64_of v.slow_query_log) (pos 1) then codes "ON" else codes "OFF";
  character_set = v.character_set;
  buffer_pool_size = int64_of v.buffer_pool_size;
  buffer_pool_instances = int64_of v.buffer_pool_instances;
  innodb_io_capacity = int64_of v.innodb_io_capacity;
  innodb_read_io_threads = int64_of v.innodb_read_io_threads;
  innodb_write_io_threads = int64_of v.innodb_write_io_threads;
  interactive_timeout = int64_of v.interactive_timeout;
  table_open_cache = int64_of v.table_open_cache;
  wait_timeout = int64_of v.wait_timeout;
}

unfoldable pub slave_io : Dict Str → Str
unfolding pick_first
slave_io row = pick_first row (codes "Slave_IO_Running" ∷ codes "Replica_IO_Running" ∷ [])

unfoldable pub slave_sql : Dict Str → Str
unfolding pick_first
slave_sql row = pick_first row (codes "Slave_SQL_Running" ∷ codes "Replica_SQL_Running" ∷ [])

unfoldable pub with_role : Answer (Dict Str) → MySqlNode → MySqlNode
unfolding slave_io slave_sql
with_role (inl (c ∷ row)) node = record node {
  role = codes "slave";
  slave_io_state = slave_io (c ∷ row);
  slave_sql_state = slave_sql (c ∷ row);
}
with_role _ node = record node { role = codes "master" }

abbrev pub with_binlogs : Answer ℤ → Answer ℤ → MySqlNode → MySqlNode
with_binlogs (inl n) _ node = record node { binlog_count = n }
with_binlogs (inr _) (inl n) node = record node { binlog_count = n }
with_binlogs (inr _) (inr _) node = node

unfoldable pub status_of : (Str → Answer RowSet) → Answer (Dict Str)
unfolding query_status_vertical
status_of query =
    status_or (query_status_vertical (query (codes "SHOW SLAVE STATUS")))
      (query_status_vertical (query (codes "SHOW REPLICA STATUS")))

-- The node after its variables are read.
unfoldable pub mysql_node_of :
    Str → Str → (Str → Answer RowSet) → Answer MySqlVariables → MySqlNode × ProbeResult
unfolding failed_mysql with_variables with_role status_of count_rows
mysql_node_of ip target query (inr e) = failed_mysql ip target (codes "variables query failed: ") e
mysql_node_of ip target query (inl v) = (
  with_binlogs (count_rows (query (codes "SHOW BINARY LOGS")))
      (count_rows (query (codes "SHOW MASTER LOGS")))
      (with_role (status_of query) (with_variables v (empty_mysql ip))),
  record { target = target; latency = pos 0; err = none; err_class = err_none },
)

-- Run of mysqlNodeProbe.
unfoldable pub probe_mysql_node : MySqlCalls → Str → Str → MySqlNode × ProbeResult
unfolding failed_mysql mysql_node_of
probe_mysql_node calls port ip =
    let target = ip ++ codes ":" ++ port in
    elim (calls.open_db ip) [
      | some e ↦ failed_mysql ip target [] e
      | none ↦ elim (calls.ping ip) [
        | some e ↦ failed_mysql ip target (codes "connect/query failed: ") e
        | none ↦ mysql_node_of ip target (calls.query ip) (calls.variables ip)
      ]
    ]

-- CollectMySQL
unfoldable pub collect_mysql : MySqlCalls → Str → List Str → List MySqlCluster
unfolding probe_mysql_node
collect_mysql calls port [] = []
collect_mysql calls port (ip ∷ ips) =
    record {
      instance_name = codes "mysql:" ++ port;
      nodes = map (λ i. (probe_mysql_node calls port i).0) (ip ∷ ips);
      error = [];
    }
    ∷ []
