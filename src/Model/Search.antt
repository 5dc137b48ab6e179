-- ===== src/Model/Search.antt =====
-- model/types.go: Elasticsearch clusters.
use weops_inspect.Prelude.{Str, ℤ, List}
use weops_inspect.Model.Check.{CheckStatus}

pub record EsNode (F : Type 0) : Type 0 where
  pub ip : Str
  pub heap_percent : ℤ
  pub ram_percent : ℤ
  pub cpu : ℤ
  pub load_1m : F
  pub load_5m : F
  pub load_15m : F
  pub role : Str
  pub heap_status : CheckStatus
  pub ram_status : CheckStatus

pub record EsNodeReach : Type 0 where
  pub ip : Str
  pub status : Str
  pub detail : Str
  pub render_status : CheckStatus

pub record EsCluster (F : Type 0) : Type 0 where
  pub instance_name : Str
  pub cluster_name : Str
  pub status : Str
  pub number_of_nodes : ℤ
  pub number_of_data_nodes : ℤ
  pub active_primary_shards : ℤ
  pub active_shards : ℤ
  pub unassigned_shards : ℤ
  pub pending_tasks : ℤ
  pub active_shards_percent : F
  pub nodes : List (EsNode F)
  pub node_reachability : List EsNodeReach
  pub error : Str
  pub error_class : Str
  pub health_status : CheckStatus
  pub unassigned_status : CheckStatus
  pub pending_status : CheckStatus
