-- ===== src/Collector/Service/Verdicts.antt =====
-- collector/service.go with checker/rules.go: what becomes of a service.
use weops_inspect.Prelude.{
  ◌≡◌, refl, ap, ◌∙◌, inl, inr, ◌||◌, Option, none, some, List, [], ◌∷◌, ◌++◌, if◌then◌else◌,
  Bool-cases, is_empty, Str, codes, str_eq, Dict, lookup,
}
use weops_inspect.Prelude.Strings.{trim_space}
use weops_inspect.Model.{CheckStatus, ok, warn, unknown, ServiceModule}
use weops_inspect.Checker.Cells.{statuses}
use weops_inspect.Checker.Host.{make_result}
use weops_inspect.Checker.Service.{module_status, healthz_status, healthz_results, check_service}
use weops_inspect.Collector.Registry.{SubModule}
use weops_inspect.Collector.Service.{
  empty_module, parse_properties, property, healthz_verdict, with_service, with_healthz,
  with_workers, module_of,
}

-- What CheckService is to say of the state of systemctl, from the section of the service.
abbrev pub status_expected : SubModule → Option Str → CheckStatus
status_expected sub none = unknown
status_expected sub (some svc) =
    if sub.skip_status_check
    then unknown
    else if str_eq (property (codes "ActiveState") (parse_properties svc)) (codes "active")
    then ok
    else warn

-- And of the healthz URL: nothing where it is not asked, and else whether the verdict is ok.
abbrev pub healthz_expected : SubModule → Option Str → List CheckStatus
healthz_expected sub none = []
healthz_expected sub (some hz) =
    let verdict = healthz_verdict sub.healthz_type (trim_space hz) in
    if sub.skip_healthz_check || is_empty verdict || str_eq verdict (codes "N/A")
    then []
    else (if str_eq verdict (codes "ok") then ok else warn) ∷ []

checked_cells :
    (sm : ServiceModule) (key : Str)
    → statuses (check_service sm key).1
      ≡ module_status sm.status
        ∷ (if is_empty sm.healthz_api || str_eq sm.healthz_api (codes "N/A")
            then []
            else (if str_eq sm.healthz_api (codes "ok") then ok else warn) ∷ [])
unfolding check_service healthz_status healthz_results make_result
checked_cells sm key = ap (λ cells. module_status sm.status ∷ cells) (cells_of sm.healthz_api)
  where
    cells_of :
        (api : Str)
        → statuses (
            healthz_results
              (codes "service." ++ key ++ codes "/" ++ sm.module_name ++ codes ".")
              api
              (healthz_status api))
          ≡ (if is_empty api || str_eq api (codes "N/A")
              then []
              else (if str_eq api (codes "ok") then ok else warn) ∷ [])
    cells_of api =
        unfold healthz_status healthz_results make_result in
        elim (Bool-cases (is_empty api)) [
          | inl h ↦ rw h refl
          | inr h ↦ elim (Bool-cases (str_eq api (codes "N/A"))) [
            | inl g ↦ rw (h, g) refl
            | inr g ↦ elim (Bool-cases (str_eq api (codes "ok"))) [
              | inl f ↦ rw (h, g, f) refl
              | inr f ↦ rw (h, g, f) refl
            ]
          ]
        ]

workers_kept :
    (o : Option Str) (sm : ServiceModule)
    → ((with_workers o sm).status ≡ sm.status) × ((with_workers o sm).healthz_api ≡ sm.healthz_api)
unfolding with_workers
workers_kept none sm = (refl, refl)
workers_kept (some wk) sm = (refl, refl)

healthz_kept :
    (type : Str) (o : Option Str) (sm : ServiceModule) → (with_healthz type o sm).status ≡ sm.status
unfolding with_healthz
healthz_kept type none sm = refl
healthz_kept type (some hz) sm = refl

state_cell :
    (state : Str)
    → module_status (if is_empty state then codes "unknown" else state)
      ≡ (if str_eq state (codes "active") then ok else warn)
unfolding module_status str_eq
state_cell [] = refl
state_cell (c ∷ s) = refl

-- The service after the section of systemctl, and after that of healthz.
abbrev started : SubModule → Option Str → ServiceModule
started sub svc =
    if sub.skip_status_check
    then empty_module sub.name
    else with_service svc (empty_module sub.name)

abbrev probed : SubModule → Option Str → Option Str → ServiceModule
probed sub svc hz =
    if sub.skip_healthz_check
    then record (started sub svc) { healthz_api = codes "N/A" }
    else with_healthz sub.healthz_type hz (started sub svc)

started_cell :
    (sub : SubModule) (svc : Option Str)
    → module_status (started sub svc).status ≡ status_expected sub svc
started_cell sub none = elim (Bool-cases sub.skip_status_check) [
  | inl h ↦ unfold module_status in rw h refl
  | inr h ↦ unfold module_status with_service in rw h refl
]
started_cell sub (some svc) = elim (Bool-cases sub.skip_status_check) [
  | inl h ↦ unfold module_status in rw h refl
  | inr h ↦
      unfold with_service in
      rw h (state_cell (property (codes "ActiveState") (parse_properties svc)))
]

started_healthz : (sub : SubModule) (svc : Option Str) → (started sub svc).healthz_api ≡ []
started_healthz sub none = elim (Bool-cases sub.skip_status_check) [
  | inl h ↦ rw h refl
  | inr h ↦ unfold with_service in rw h refl
]
started_healthz sub (some svc) = elim (Bool-cases sub.skip_status_check) [
  | inl h ↦ rw h refl
  | inr h ↦ unfold with_service in rw h refl
]

probed_status :
    (sub : SubModule) (svc hz : Option Str) → (probed sub svc hz).status ≡ (started sub svc).status
probed_status sub svc hz = elim (Bool-cases sub.skip_healthz_check) [
  | inl h ↦ rw h refl
  | inr h ↦ rw h (healthz_kept sub.healthz_type hz (started sub svc))
]

abbrev healthz_cells : Str → List CheckStatus
healthz_cells api =
    if is_empty api || str_eq api (codes "N/A")
    then []
    else (if str_eq api (codes "ok") then ok else warn) ∷ []

probed_cells :
    (sub : SubModule) (svc hz : Option Str)
    → healthz_cells (probed sub svc hz).healthz_api ≡ healthz_expected sub hz
probed_cells sub svc none = elim (Bool-cases sub.skip_healthz_check) [
  | inl h ↦ unfold str_eq in rw h refl
  | inr h ↦ unfold with_healthz in rw (h, started_healthz sub svc) refl
]
probed_cells sub svc (some hz) = elim (Bool-cases sub.skip_healthz_check) [
  | inl h ↦ unfold str_eq in rw h refl
  | inr h ↦ unfold with_healthz in rw h refl
]

-- The results of CheckService on a service as it is read from the sections of a host's output. The first
-- is Unknown where the status is not collected for the service or has no section, OK where systemctl says
-- active, and Warn elsewhere. A second is there where healthz is asked for and answered and its verdict is
-- not N/A: OK for the verdict ok, and Warn elsewhere.
pub module_of-cells :
    (sections : Dict Str) (sub : SubModule) (key : Str)
    → statuses (check_service (module_of sections sub) key).1
      ≡ status_expected sub (lookup (codes "SVC_" ++ sub.name) sections)
        ∷ healthz_expected sub (lookup (codes "HZ_" ++ sub.name) sections)
module_of-cells sections sub key =
    let svc = lookup (codes "SVC_" ++ sub.name) sections in
    let hz = lookup (codes "HZ_" ++ sub.name) sections in
    let wk = lookup (codes "WK_" ++ sub.name) sections in
    let kept = workers_kept wk (probed sub svc hz) in
    checked_cells (module_of sections sub) key
    ∙ unfold module_of in
      (ap
          (λ state.
            module_status state ∷ healthz_cells (with_workers wk (probed sub svc hz)).healthz_api)
          (kept.0 ∙ probed_status sub svc hz)
        ∙ ap (λ cell. cell ∷ healthz_cells (with_workers wk (probed sub svc hz)).healthz_api)
            (started_cell sub svc)
        ∙ ap (λ cells. status_expected sub svc ∷ cells)
            (ap healthz_cells kept.1 ∙ probed_cells sub svc hz))
