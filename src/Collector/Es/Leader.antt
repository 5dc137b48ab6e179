-- ===== src/Collector/Es/Leader.antt =====
-- collector/es.go with checker/es.go: the Warn results for a cluster whose nodes are asked one by one.
use weops_inspect.Prelude.{
  ℕ, ◌≡◌, refl, ap, ◌∙◌, ◌⊎◌, inl, inr, Bool, true, false, not, Option, none, some, List, [], ◌∷◌,
  arith, if◌then◌else◌, Bool-cases, all, is_empty, count_if, Str, codes, str_eq, Dict, FloatOps,
}
use weops_inspect.Config.Types.{Thresholds}
use weops_inspect.Model.{is_warn, EsCluster}
use weops_inspect.Checker.Summary.{count_status}
use weops_inspect.Checker.Cells.{sum_of, present}
use weops_inspect.Checker.Es.{is_unreachable, check_es}
use weops_inspect.Checker.Severity.{es_warnings, check_es-warns}
use weops_inspect.Collector.Probe.{Failure, Answer}
use weops_inspect.Collector.Json.{Json}
use weops_inspect.Collector.Redis.{join_host_port}
use weops_inspect.Collector.Es.{
  empty_cluster, reach_of, probe_es_nodes, leader_of, with_health, with_nodes, decoded, EsCalls,
  run_es_probe, es_cluster_of, collect_es,
}

abbrev pub is_answer {ℓ} : {A : Type ℓ} → A ⊎ Failure → Bool
is_answer (inl a) = true
is_answer (inr e) = false

-- The first address that answers.
unfoldable pub first_answering : (Str → Answer Str) → List Str → Option Str
first_answering get [] = none
first_answering get (ip ∷ ips) =
    let later = first_answering get ips in if is_answer (get ip) then some ip else later

abbrev pub is_none : Option Str → Bool
is_none none = true
is_none (some ip) = false

abbrev pub name_or_none : Option Str → Str
name_or_none none = []
name_or_none (some ip) = ip

reach_status :
    (ip : Str) (a : Answer Str)
    → (str_eq (reach_of ip a).status (codes "ok") ≡ is_answer a)
      × ((reach_of ip a).ip ≡ ip)
      × (is_unreachable (reach_of ip a) ≡ not (is_answer a))
unfolding reach_of is_unreachable str_eq
reach_status ip (inl out) = (refl, refl, refl)
reach_status ip (inr e) = (refl, refl, refl)

leader_of-first :
    (get : Str → Answer Str) (ips : List Str)
    → leader_of (probe_es_nodes get ips) ≡ name_or_none (first_answering get ips)
unfolding leader_of probe_es_nodes first_answering
leader_of-first get [] = refl
leader_of-first get (ip ∷ ips) =
    let r = reach_status ip (get ip) in
    elim (Bool-cases (is_answer (get ip))) [
      | inl h ↦ rw (r.0, h) r.1
      | inr h ↦ rw (r.0, h) (leader_of-first get ips)
    ]

unreachable-count :
    (get : Str → Answer Str) (ips : List Str)
    → count_if is_unreachable (probe_es_nodes get ips)
      ≡ count_if (λ ip. not (is_answer (get ip))) ips
unfolding probe_es_nodes count_if
unreachable-count get [] = refl
unreachable-count get (ip ∷ ips) =
    let r = reach_status ip (get ip) in ground (arith, r.2, unreachable-count get ips)

module _ {F : Type 0} ⦃fl : FloatOps F⦄ where
  health-kept :
      (m : Option (Dict (Json F))) (c : EsCluster F)
      → ((with_health m c).error ≡ c.error)
        × ((with_health m c).node_reachability ≡ c.node_reachability)
  unfolding with_health
  health-kept none c = (refl, refl)
  health-kept (some m) c = (refl, refl)

  nodes-kept :
      (rows : Option (List (Dict (Json F)))) (c : EsCluster F)
      → ((with_nodes rows c).error ≡ c.error)
        × ((with_nodes rows c).node_reachability ≡ c.node_reachability)
  unfolding with_nodes
  nodes-kept none c = (refl, refl)
  nodes-kept (some rows) c = (refl, refl)

  -- The error of the cluster after the probe of a leader: none where its health is answered.
  probe-error :
      (calls : EsCalls F) (host : Str) (a : Answer Str) (c : EsCluster F)
      → present c.error ≡ false
      → (present (run_es_probe calls host a c).error ≡ not (is_answer a))
        × ((run_es_probe calls host a c).node_reachability ≡ c.node_reachability)
  unfolding run_es_probe
  probe-error calls host (inr e) c h = (refl, refl)
  probe-error calls host (inl out) c h =
      let healthy = with_health (calls.decode_object out) c in
      let rows = decoded calls.decode_list (calls.get_nodes host) in
      (
        ap present ((nodes-kept rows healthy).0 ∙ (health-kept (calls.decode_object out) c).0) ∙ h,
        (nodes-kept rows healthy).1 ∙ (health-kept (calls.decode_object out) c).1,
      )

  -- The Warn results of a cluster with this leader.
  abbrev pub warns_under : EsCalls F → List Str → Option Str → ℕ
  warns_under calls ips none = 1
  warns_under calls ips (some leader) =
      if is_answer (calls.get_health leader)
      then count_if (λ ip. not (is_answer (calls.get_root ip))) ips
      else 1

  cluster-warns :
      (calls : EsCalls F) (first : Str) (ips : List Str) (leader : Option Str)
      → first_answering calls.get_root ips ≡ leader
      → is_empty (name_or_none leader) ≡ is_none leader
      → es_warnings (es_cluster_of calls first (probe_es_nodes calls.get_root ips))
        ≡ warns_under calls ips leader
  unfolding es_cluster_of
  cluster-warns calls first ips none e h = rw (leader_of-first calls.get_root ips, e) refl
  cluster-warns calls first ips (some leader) e h =
      let reach = probe_es_nodes calls.get_root ips in
      let after =
        probe-error calls leader (calls.get_health leader)
          (empty_cluster (join_host_port leader (codes "9200")) reach) refl in
      rw
        (
          leader_of-first calls.get_root ips,
          e,
          h,
          after.0,
          after.1,
          unreachable-count calls.get_root ips,
        )
        (ground arith)

abbrev pub is_named : Str → Bool
is_named ip = not (is_empty ip)

first_answering-named :
    (get : Str → Answer Str) (ips : List Str)
    → all is_named ips ≡ true
    → is_empty (name_or_none (first_answering get ips)) ≡ is_none (first_answering get ips)
unfolding first_answering all
first_answering-named get [] h = refl
first_answering-named get (ip ∷ ips) h = ground (arith, first_answering-named get ips)

-- What CheckES has to warn of.
unfoldable pub es_problems : {F : Type 0} → ⦃fl : FloatOps F⦄ → EsCalls F → List Str → ℕ
unfolding first_answering
es_problems calls [] = 0
es_problems calls (ip ∷ ips) =
    if calls.has_curl
    then warns_under calls (ip ∷ ips) (first_answering calls.get_root (ip ∷ ips))
    else 1

module _ {F : Type 0} ⦃fl : FloatOps F⦄ (t : Thresholds F) where
  -- The Warn results of CheckES on what CollectES collects, where no address is empty: none where no
  -- address is configured; one alone where curl is missing, where no node answers, or where the first
  -- node that answers does not answer for the health of the cluster; and else one for each node that
  -- does not answer.
  pub collect_es-warns :
      (calls : EsCalls F) (ips : List Str)
      → all is_named ips ≡ true
      → count_status is_warn (check_es t (collect_es calls ips)).1 ≡ es_problems calls ips
  collect_es-warns calls ips h = check_es-warns t (collect_es calls ips) ∙ summed calls ips h
    where
      summed :
          (c : EsCalls F) (is : List Str)
          → all is_named is ≡ true
          → sum_of es_warnings (collect_es c is) ≡ es_problems c is
      summed c [] g = unfold collect_es sum_of es_problems in refl
      summed c (i ∷ is) g =
          let leader = first_answering c.get_root (i ∷ is) in
          let one =
            cluster-warns c i (i ∷ is) leader refl (first_answering-named c.get_root (i ∷ is) g) in
          elim (Bool-cases c.has_curl) [
            | inl e ↦ unfold collect_es sum_of es_problems in rw e (omega (arith, one))
            | inr e ↦ unfold collect_es sum_of es_problems in rw e refl
          ]
