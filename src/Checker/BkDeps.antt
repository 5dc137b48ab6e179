-- ===== src/Checker/BkDeps.antt =====
-- checker/bkdeps.go: the rules for the dependencies of bkmonitorv3.
use weops_inspect.Prelude.{Option, none, some, List, [], ◌∷◌, ◌++◌, if◌then◌else◌, codes, str_eq}
use weops_inspect.Model.{
  CheckStatus, unset, ok, notice, CheckResult, DependencyResult, BkMonitorV3Section,
}
use weops_inspect.Checker.Host.{make_result}
use weops_inspect.Checker.Cells.{each}

unfoldable pub check_dependency : DependencyResult → DependencyResult × List CheckResult
unfolding make_result
check_dependency d =
    let found : CheckStatus → CheckResult =
      λ s. make_result (codes "bkdeps." ++ d.item ++ codes ".status") d.status s [] in
    if str_eq d.status (codes "ok")
    then (record d { render_status = ok }, found ok ∷ [])
    else if str_eq d.status (codes "skip")
    then (record d { render_status = unset }, [])
    else (record d { render_status = notice }, found notice ∷ [])

unfoldable pub check_bk_deps :
    Option BkMonitorV3Section → Option BkMonitorV3Section × List CheckResult
unfolding check_dependency each
check_bk_deps none = (none, [])
check_bk_deps (some s) =
    let deps = each check_dependency s.dependencies in
    (some (record { dependencies = deps.0 }), deps.1)
