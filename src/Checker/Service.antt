-- ===== src/Checker/Service.antt =====
-- CheckService, CheckServiceContainers and CheckServiceCollectError of checker/rules.go.
use weops_inspect.Prelude.{
  ◌&&◌, List, [], ◌∷◌, ◌++◌, if◌then◌else◌, is_empty, pos, ltb_ℤ, eqb_ℤ, Str, codes, str_eq,
}
use weops_inspect.Decimal.{itoa}
use weops_inspect.Model.{
  CheckStatus, unset, ok, warn, unknown, notice, CheckResult, ServiceModule, ServiceStatus,
}
use weops_inspect.Config.Types.{Thresholds}
use weops_inspect.Checker.Host.{make_result}
use weops_inspect.Checker.Cells.{report_if, present}

-- switch sm.Status
unfoldable pub module_status : Str → CheckStatus
module_status s = if is_empty s then unknown else if str_eq s (codes "active") then ok else warn

-- The colour of the healthz cell.
unfoldable pub healthz_status : Str → CheckStatus
healthz_status s =
    if is_empty s
    then unset
    else if str_eq s (codes "N/A")
    then unset
    else if str_eq s (codes "ok")
    then ok
    else warn

unfoldable pub healthz_results : Str → Str → CheckStatus → List CheckResult
unfolding make_result
healthz_results prefix api unset = []
healthz_results prefix api s = make_result (prefix ++ codes "healthz") api s (codes "期望 ok") ∷ []

unfoldable pub check_service : ServiceModule → Str → ServiceModule × List CheckResult
unfolding make_result module_status healthz_status healthz_results
check_service sm module_key =
    let prefix = codes "service." ++ module_key ++ codes "/" ++ sm.module_name ++ codes "." in
    let shown = if is_empty sm.status then codes "(empty)" else sm.status in
    let healthz = healthz_status sm.healthz_api in
    (
      record sm { render_status = module_status sm.status; healthz_render_status = healthz },
      make_result (prefix ++ codes "status") shown (module_status sm.status) (codes "期望 active")
          ∷ healthz_results prefix sm.healthz_api healthz,
    )

unfoldable pub check_service_containers :
    {F : Type 0} → Thresholds F → ServiceStatus → ServiceStatus × List CheckResult
unfolding make_result itoa
check_service_containers t s =
    if eqb_ℤ s.containers_up (pos 0) && eqb_ℤ s.containers_exited (pos 0)
    then (s, [])
    else if ltb_ℤ t.service_containers_exited s.containers_exited
    then (
      record s { exited_render_status = notice },
      make_result (codes "service." ++ s.module_name ++ codes ".docker.exited")
            (itoa s.containers_exited) notice (codes "> " ++ itoa t.service_containers_exited)
          ∷ [],
    )
    else (record s { exited_render_status = ok }, [])

unfoldable pub check_service_collect_error : ServiceStatus → List CheckResult
unfolding make_result report_if
check_service_collect_error s =
    report_if (present s.error)
      (make_result (codes "service." ++ s.module_name ++ codes ".collect_error") s.error notice [])
