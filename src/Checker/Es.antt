-- ===== src/Checker/Es.antt =====
-- checker/es.go: the rules for Elasticsearch.
use weops_inspect.Prelude.{
  Bool, not, ◌&&◌, List, [], ◌∷◌, ◌++◌, if◌then◌else◌, is_empty, pos, ltb_ℤ, Str, codes, str_eq,
}
use weops_inspect.Decimal.{itoa}
use weops_inspect.Model.{CheckStatus, ok, warn, notice, CheckResult, EsNode, EsNodeReach, EsCluster}
use weops_inspect.Config.Types.{Thresholds}
use weops_inspect.Checker.Host.{make_result}
use weops_inspect.Checker.Cells.{report_if, flag_if, present, each}

unfoldable pub safe_instance : Str → Str
safe_instance s = if is_empty s then codes "unknown" else s

unfoldable pub is_unreachable : EsNodeReach → Bool
is_unreachable n = str_eq n.status (codes "unreachable")

-- The loop over c.NodeReachability.
unfoldable pub check_es_reach : Str → EsNodeReach → EsNodeReach × List CheckResult
unfolding flag_if report_if make_result is_unreachable
check_es_reach prefix n = (
  record n { render_status = flag_if (is_unreachable n) warn },
  report_if (is_unreachable n)
      (make_result (prefix ++ n.ip ++ codes ".reachability") n.status warn []),
)

unfoldable pub not_green : {F : Type 0} → EsCluster F → Bool
not_green c = present c.status && not (str_eq c.status (codes "green"))

-- The colour of the cluster status; an empty status leaves the cell as it was.
unfoldable pub health_of : {F : Type 0} → EsCluster F → CheckStatus
unfolding not_green
health_of c =
    if not_green c then notice else if str_eq c.status (codes "green") then ok else c.health_status

unfoldable pub es_prefix : {F : Type 0} → EsCluster F → Str
unfolding safe_instance
es_prefix c = codes "es." ++ safe_instance c.instance_name ++ codes "."

module _ {F : Type 0} (t : Thresholds F) where
  -- The loop over c.Nodes.
  unfoldable pub check_es_node : Str → EsNode F → EsNode F × List CheckResult
  unfolding flag_if report_if make_result itoa
  check_es_node prefix n =
      let hot = ltb_ℤ t.es_heap_percent n.heap_percent in
      let full = ltb_ℤ t.es_ram_percent n.ram_percent in
      (
        record n { heap_status = flag_if hot notice; ram_status = flag_if full notice },
        report_if hot (
              make_result (prefix ++ n.ip ++ codes ".heap") (itoa n.heap_percent ++ codes "%")
                notice [])
            ++ report_if full (
                make_result (prefix ++ n.ip ++ codes ".ram") (itoa n.ram_percent ++ codes "%")
                  notice []),
      )

  -- A cluster that was collected.
  unfoldable pub check_collected : Str → EsCluster F → EsCluster F × List CheckResult
  unfolding flag_if report_if make_result itoa check_es_node check_es_reach not_green health_of each
  check_collected prefix c =
      let unassigned = ltb_ℤ t.es_unassigned_shards c.unassigned_shards in
      let pending = ltb_ℤ (pos 0) c.pending_tasks in
      let nodes = each (check_es_node prefix) c.nodes in
      let reach = each (check_es_reach prefix) c.node_reachability in
      (
        record c {
          health_status = health_of c;
          unassigned_status = flag_if unassigned notice;
          pending_status = flag_if pending notice;
          nodes = nodes.0;
          node_reachability = reach.0;
        },
        report_if (not_green c) (make_result (prefix ++ codes "cluster_status") c.status notice [])
            ++ report_if unassigned (
                make_result (prefix ++ codes "unassigned_shards") (itoa c.unassigned_shards) notice
                  [])
            ++ report_if pending
                (make_result (prefix ++ codes "pending_tasks") (itoa c.pending_tasks) notice [])
            ++ nodes.1
            ++ reach.1,
      )

  unfoldable pub check_one_es_cluster : EsCluster F → EsCluster F × List CheckResult
  unfolding make_result check_collected es_prefix
  check_one_es_cluster c =
      if present c.error
      then (
        record c { health_status = warn },
        make_result (es_prefix c ++ codes "cluster_error") c.error warn [] ∷ [],
      )
      else check_collected (es_prefix c) c

  unfoldable pub check_es : List (EsCluster F) → List (EsCluster F) × List CheckResult
  unfolding check_one_es_cluster each
  check_es = each check_one_es_cluster
