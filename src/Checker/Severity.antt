-- ===== src/Checker/Severity.antt =====
-- checker/: which findings of each part count as Warn.
use weops_inspect.Prelude.{
  ℕ, ◌+◌, ◌≡◌, refl, ◌∙◌, Bool, Option, none, some, List, [], ◌∷◌, ◌++◌, arith, if◌then◌else◌,
  count_if, ltb_ℤ, Str, codes, FloatOps,
}
use weops_inspect.Model.{
  CheckResult, is_warn, is_unknown, DiskUsage, HostMetrics, ServiceStatus, DependencyResult,
  BkMonitorV3Section, EsNode, EsNodeReach, EsCluster, MongoMember, MongoCluster, RedisNode,
}
use weops_inspect.Config.Types.{Thresholds}
use weops_inspect.Checker.Summary.{count_status}
use weops_inspect.Checker.Host.{make_result}
use weops_inspect.Checker.Cells.{
  report_if, present, each, sum_of, count_status-append, count_status-each, one_if,
}
use weops_inspect.Checker.Es.{
  check_es_node, check_es_reach, is_unreachable, check_collected, check_one_es_cluster, check_es,
  es_prefix,
}
use weops_inspect.Checker.Mongo.{check_member, check_mongo_cluster, check_mongo, mongo_prefix}
use weops_inspect.Checker.Redis.{check_redis_node, check_redis}
use weops_inspect.Checker.BkDeps.{check_dependency, check_bk_deps}
use weops_inspect.Checker.Host.{
  check_host, check_settings, check_usages, usage_value, is_overloaded, unexpected,
}
use weops_inspect.Checker.Service.{check_service_containers, check_service_collect_error}

-- What CheckES counts as Warn.
abbrev pub es_warnings : {F : Type 0} → EsCluster F → ℕ
es_warnings c = if present c.error then 1 else count_if is_unreachable c.node_reachability

sum_zero : {A : Type 0} (xs : List A) → sum_of (λ _. 0) xs ≡ 0
unfolding sum_of
sum_zero [] = refl
sum_zero (x ∷ xs) = omega (arith, sum_zero xs)

sum_one_if :
    {A : Type 0} (p : A → Bool) (xs : List A) → sum_of (λ x. one_if (p x)) xs ≡ count_if p xs
unfolding sum_of count_if
sum_one_if p [] = refl
sum_one_if p (x ∷ xs) = ground (arith, sum_one_if p xs)

es_reach-warns :
    (prefix : Str) (n : EsNodeReach)
    → count_status is_warn (check_es_reach prefix n).1 ≡ one_if (is_unreachable n)
unfolding check_es_reach report_if make_result count_status count_if
es_reach-warns prefix n = ground arith

es_reaches-warns :
    (prefix : Str) (ns : List EsNodeReach)
    → count_status is_warn (each (check_es_reach prefix) ns).1 ≡ count_if is_unreachable ns
es_reaches-warns prefix ns =
    count_status-each is_warn (λ n. one_if (is_unreachable n)) (check_es_reach prefix)
      (es_reach-warns prefix) ns
    ∙ sum_one_if is_unreachable ns

module _ {F : Type 0} (t : Thresholds F) where
  es_node-warns :
      (prefix : Str) (n : EsNode F) → count_status is_warn (check_es_node t prefix n).1 ≡ 0
  unfolding check_es_node report_if make_result count_status count_if
  es_node-warns prefix n = ground arith

  es_nodes-warns :
      (prefix : Str) (ns : List (EsNode F))
      → count_status is_warn (each (check_es_node t prefix) ns).1 ≡ 0
  es_nodes-warns prefix ns =
      count_status-each is_warn (λ _. 0) (check_es_node t prefix) (es_node-warns prefix) ns
      ∙ sum_zero ns

  es_lists-warns :
      (prefix : Str) (ns : List (EsNode F)) (rs : List EsNodeReach)
      → count_status is_warn
          ((each (check_es_node t prefix) ns).1 ++ (each (check_es_reach prefix) rs).1)
        ≡ count_if is_unreachable rs
  es_lists-warns prefix ns rs = omega (
    arith,
    count_status-append is_warn (each (check_es_node t prefix) ns).1
        (each (check_es_reach prefix) rs).1,
    es_nodes-warns prefix ns,
    es_reaches-warns prefix rs,
  )

  collected-warns :
      (prefix : Str) (c : EsCluster F)
      → count_status is_warn (check_collected t prefix c).1
        ≡ count_if is_unreachable c.node_reachability
  unfolding check_collected report_if make_result count_status count_if
  collected-warns prefix c = ground (arith, es_lists-warns prefix c.nodes c.node_reachability)

  es_cluster-warns :
      (c : EsCluster F) → count_status is_warn (check_one_es_cluster t c).1 ≡ es_warnings c
  unfolding check_one_es_cluster make_result count_status count_if
  es_cluster-warns c = ground (arith, collected-warns (es_prefix c) c)

  -- The Warn results of CheckES are one for each cluster with an error, and one for each
  -- unreachable node of the other clusters.
  pub check_es-warns :
      (clusters : List (EsCluster F))
      → count_status is_warn (check_es t clusters).1 ≡ sum_of es_warnings clusters
  unfolding check_es
  check_es-warns clusters =
      count_status-each is_warn es_warnings (check_one_es_cluster t) es_cluster-warns clusters

  redis_node-warns :
      (n : RedisNode) → count_status is_warn (check_redis_node t n).1 ≡ one_if (present n.error)
  unfolding check_redis_node report_if make_result count_status count_if
  redis_node-warns n = ground arith

  -- The Warn results of CheckRedis are one for each node with an error.
  pub check_redis-warns :
      (nodes : List RedisNode)
      → count_status is_warn (check_redis t nodes).1 ≡ count_if (λ n. present n.error) nodes
  unfolding check_redis
  check_redis-warns nodes =
      count_status-each is_warn (λ n. one_if (present n.error)) (check_redis_node t)
        redis_node-warns nodes
      ∙ sum_one_if (λ n. present n.error) nodes

  -- The rules on containers and on collection errors give no Warn and no Unknown result.
  pub containers-NoMail :
      (s : ServiceStatus)
      → (count_status is_warn (check_service_containers t s).1 ≡ 0)
        × (count_status is_unknown (check_service_containers t s).1 ≡ 0)
        × (count_status is_warn (check_service_collect_error s) ≡ 0)
        × (count_status is_unknown (check_service_collect_error s) ≡ 0)
  unfolding check_service_containers check_service_collect_error report_if make_result count_status
      count_if
  containers-NoMail s = ground arith

member-warns : (prefix : Str) (m : MongoMember) → count_status is_warn (check_member prefix m).1 ≡ 0
unfolding check_member report_if make_result count_status count_if
member-warns prefix m = ground arith

members-warns :
    (prefix : Str) (ms : List MongoMember)
    → count_status is_warn (each (check_member prefix) ms).1 ≡ 0
members-warns prefix ms =
    count_status-each is_warn (λ _. 0) (check_member prefix) (member-warns prefix) ms ∙ sum_zero ms

mongo_cluster-warns :
    (c : MongoCluster) → count_status is_warn (check_mongo_cluster c).1 ≡ one_if (present c.error)
unfolding check_mongo_cluster make_result count_status count_if
mongo_cluster-warns c = ground (arith, members-warns (mongo_prefix c) c.members)

-- The Warn results of CheckMongo are one for each cluster with an error.
pub check_mongo-warns :
    (clusters : List MongoCluster)
    → count_status is_warn (check_mongo clusters).1 ≡ count_if (λ c. present c.error) clusters
unfolding check_mongo
check_mongo-warns clusters =
    count_status-each is_warn (λ c. one_if (present c.error)) check_mongo_cluster
      mongo_cluster-warns clusters
    ∙ sum_one_if (λ c. present c.error) clusters

dependency-NoWarn : (d : DependencyResult) → count_status is_warn (check_dependency d).1 ≡ 0
unfolding check_dependency make_result count_status count_if
dependency-NoWarn d = ground arith

-- No result of CheckBKDeps is a Warn.
pub check_bk_deps-NoWarn :
    (s : Option BkMonitorV3Section) → count_status is_warn (check_bk_deps s).1 ≡ 0
unfolding check_bk_deps
check_bk_deps-NoWarn none = unfold count_status count_if in refl
check_bk_deps-NoWarn (some s) =
    count_status-each is_warn (λ _. 0) check_dependency dependency-NoWarn s.dependencies
    ∙ sum_zero s.dependencies

host_lists-warns :
    (us vs rest : List CheckResult)
    → count_status is_warn (us ++ vs ++ rest)
      ≡ count_status is_warn us + count_status is_warn vs + count_status is_warn rest
host_lists-warns us vs rest =
    omega (arith, count_status-append is_warn (us ++ vs) rest, count_status-append is_warn us vs)

module _ {F : Type 0} ⦃fl : FloatOps F⦄ where
  abbrev pub over_limit : F → DiskUsage F → Bool
  over_limit limit du = fl.ge (usage_value du) limit

  usages-warns :
      (name : Str) (limit : F) (dus : List (DiskUsage F))
      → count_status is_warn (check_usages name limit dus) ≡ count_if (over_limit limit) dus
  unfolding check_usages make_result count_status count_if
  usages-warns name limit [] = refl
  usages-warns name limit (du ∷ dus) = ground (arith, usages-warns name limit dus)

  settings-warns :
      (h : HostMetrics F) (t : Thresholds F)
      → count_status is_warn (check_settings h t)
        ≡ one_if (ltb_ℤ h.max_open_files t.max_open_files)
          + one_if (unexpected h.selinux (codes "Disabled"))
          + one_if (unexpected h.firewalld (codes "inactive"))
          + one_if (unexpected h.chronyd (codes "active"))
          + one_if (is_overloaded h)
  unfolding check_settings make_result count_status count_if
  settings-warns h t = ground arith

  -- The Warn results of CheckHost are one for each measure of the host that is out of its bounds:
  -- CPU and memory, each mount point, the open files, three services and the load.
  pub check_host-warns :
      (h : HostMetrics F) (t : Thresholds F)
      → count_status is_warn (check_host h t)
        ≡ one_if (fl.ge h.cpu_usage t.cpu_usage)
          + one_if (fl.ge h.mem_usage t.mem_usage)
          + count_if (over_limit t.disk_usage) h.disk_usage
          + count_if (over_limit t.inode_usage) h.inode_usage
          + one_if (ltb_ℤ h.max_open_files t.max_open_files)
          + one_if (unexpected h.selinux (codes "Disabled"))
          + one_if (unexpected h.firewalld (codes "inactive"))
          + one_if (unexpected h.chronyd (codes "active"))
          + one_if (is_overloaded h)
  unfolding check_host make_result count_status count_if
  check_host-warns h t =
      let u = check_usages (codes "disk_usage") t.disk_usage h.disk_usage in
      let v = check_usages (codes "inode_usage") t.inode_usage h.inode_usage in
      ground (
        arith,
        host_lists-warns u v (check_settings h t),
        usages-warns (codes "disk_usage") t.disk_usage h.disk_usage,
        usages-warns (codes "inode_usage") t.inode_usage h.inode_usage,
        settings-warns h t,
      )
