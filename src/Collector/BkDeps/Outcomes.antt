-- ===== src/Collector/BkDeps/Outcomes.antt =====
-- collector/bkmonitor_dep.go with checker/bkdeps.go: the outcomes of the six probes.
use weops_inspect.Prelude.{Str, codes}
use weops_inspect.Model.{DependencyResult}
use weops_inspect.Collector.BkDeps.{dependency}

-- The statuses other than skip.
data Reported : DependencyResult → Type 0 where
  as_ok : (i e t : Str) → Reported (dependency i e (codes "ok") t)
  as_fail : (i e t : Str) → Reported (dependency i e (codes "fail") t)
  as_unreachable : (i e t : Str) → Reported (dependency i e (codes "unreachable") t)
