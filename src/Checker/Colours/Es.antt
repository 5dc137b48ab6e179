-- ===== src/Checker/Colours/Es.antt =====
-- The cells and the results of the rules for Elasticsearch.
use weops_inspect.Prelude.{
  ◌≡◌, Bool, true, false, List, [], ◌∷◌, ◌++◌, map, refl, arith, if◌then◌else◌, filter, all, Str,
}
use weops_inspect.Model.{CheckStatus, warn, is_unset, EsNode, EsNodeReach, EsCluster}
use weops_inspect.Config.Types.{Thresholds}
use weops_inspect.Checker.Host.{make_result}
use weops_inspect.Checker.Cells.{
  report_if, flag_if, present, each, gather, is_flagged, statuses, statuses-append, filter-append,
  each-cells, each-cells-where,
}
use weops_inspect.Checker.Es.{
  check_es_node, check_es_reach, not_green, health_of, check_collected, check_one_es_cluster,
  check_es, es_prefix,
}

abbrev pub es_node_cells : {F : Type 0} → EsNode F → List CheckStatus
es_node_cells n = n.heap_status ∷ n.ram_status ∷ []

abbrev pub es_reach_cells : EsNodeReach → List CheckStatus
es_reach_cells n = n.render_status ∷ []

-- Only the first cell of a cluster that could not be collected is coloured.
abbrev pub es_cells : {F : Type 0} → EsCluster F → List CheckStatus
es_cells c =
    if present c.error
    then c.health_status ∷ []
    else c.health_status
      ∷ c.unassigned_status
      ∷ c.pending_status
      ∷ (gather es_node_cells c.nodes ++ gather es_reach_cells c.node_reachability)

-- The health cell has no colour yet.
abbrev pub is_fresh : {F : Type 0} → EsCluster F → Bool
is_fresh c = is_unset c.health_status

-- The cluster could not be collected.
abbrev pub is_failed : {F : Type 0} → EsCluster F → Bool
is_failed c = present c.error

abbrev pub warned : {F : Type 0} → EsCluster F → EsCluster F
warned c = record c { health_status = warn }

module _ {F : Type 0} (t : Thresholds F) where
  es_node-cells :
      (prefix : Str) (n : EsNode F)
      → statuses (check_es_node t prefix n).1
        ≡ filter is_flagged (es_node_cells (check_es_node t prefix n).0)
  unfolding check_es_node filter report_if flag_if make_result
  es_node-cells prefix n = ground arith

  es_reach-cells :
      (prefix : Str) (n : EsNodeReach)
      → statuses (check_es_reach prefix n).1
        ≡ filter is_flagged (es_reach_cells (check_es_reach prefix n).0)
  unfolding check_es_reach filter report_if flag_if make_result
  es_reach-cells prefix n = ground arith

  collected-cells :
      (prefix : Str) (c : EsCluster F)
      → is_fresh c ≡ true
      → present c.error ≡ false
      → statuses (check_collected t prefix c).1
        ≡ filter is_flagged (es_cells (check_collected t prefix c).0)
  unfolding check_collected not_green health_of filter report_if flag_if make_result
  collected-cells prefix c fresh e = ground (
    arith,
    each-cells is_flagged es_node_cells (check_es_node t prefix) (es_node-cells prefix) c.nodes,
    each-cells is_flagged es_reach_cells (check_es_reach prefix) (es_reach-cells prefix)
        c.node_reachability,
    statuses-append (each (check_es_node t prefix) c.nodes).1
        (each (check_es_reach prefix) c.node_reachability).1,
    filter-append is_flagged (gather es_node_cells (each (check_es_node t prefix) c.nodes).0)
        (gather es_reach_cells (each (check_es_reach prefix) c.node_reachability).0),
  )

  es_cluster-cells :
      (c : EsCluster F)
      → is_fresh c ≡ true
      → statuses (check_one_es_cluster t c).1
        ≡ filter is_flagged (es_cells (check_one_es_cluster t c).0)
  unfolding check_one_es_cluster filter make_result
  es_cluster-cells c fresh = ground (arith, collected-cells (es_prefix c) c fresh)

  failed-cells :
      (clusters : List (EsCluster F))
      → filter is_failed (check_es t clusters).0 ≡ map warned (filter is_failed clusters)
  unfolding check_es check_one_es_cluster check_collected each filter
  failed-cells [] = refl
  failed-cells (c ∷ cs) = ground (arith, failed-cells cs)

  -- CheckES, on clusters whose health cell has no colour yet, returns one result for each cell that
  -- it colours Warn or Notice, with the same status and in the same order, and none for the others.
  -- Of a cluster with an error it colours the health cell Warn and changes nothing else, so that it
  -- has one Warn.
  pub check_es-cells :
      (clusters : List (EsCluster F))
      → all is_fresh clusters ≡ true
      → (statuses (check_es t clusters).1
          ≡ filter is_flagged (gather es_cells (check_es t clusters).0))
        × (filter is_failed (check_es t clusters).0 ≡ map warned (filter is_failed clusters))
  check_es-cells clusters fresh = (
    unfold check_es in
        each-cells-where is_fresh is_flagged es_cells (check_one_es_cluster t) es_cluster-cells
          clusters fresh,
    failed-cells clusters,
  )
