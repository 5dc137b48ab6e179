-- ===== src/Collector/Service.antt =====
-- collector/service.go: the services of a module on a host, by one batch over SSH.
use weops_inspect.Prelude.{
  ℕ, zero, suc, ◌+◌, ◌-◌, ◌*◌, ◌/◌, ◌%◌, ◌^◌, ◌≤◌, ◌<◌, ◌≡◌, refl, sym, ap, ◌∙◌, ◌≢◌, ◌↔◌, ◌⊎◌, inl,
  inr, Bool, true, false, not, ◌&&◌, ◌||◌, Option, none, some, List, [], ◌∷◌, ◌++◌, map, arith, ltb,
  leb, ◌==◌, if◌then◌else◌, ltb→lt, lt→ltb, leb→le, ==_iff, tests, Bool-cases, Option-cases, length,
  length-append, filter, any, all, take, drop, replicate, is_empty, filter-true, count_if,
  length-filter, count_if-append, any-append, all-append, ℤ, pos, negsuc, pos_part, neg_part, sub_ℕ,
  ◌≤ℤ◌, ltb_ℤ, leb_ℤ, eqb_ℤ, succ_int, Str, codes, str_eq, str_eq_iff, str_eq_refl, str_eq_sym,
  str_lt, str_lt_irrefl, str_lt_trans, str_lt_total, Dict, lookup, insert, lookup-insert, get_or,
  FloatOps,
}
pub mod Modules
pub mod Verdicts
use weops_inspect.Prelude.Strings.{
  has_prefix, has_substring, trim_space, split_lines, cut_char, join, to_upper,
}
use weops_inspect.Decimal.{atoi, itoa}
use weops_inspect.Config.Types.{ModuleHosts, Addresses}
use weops_inspect.Config.Hosts.{get_module_hosts}
use weops_inspect.Model.{unset, ServiceModule, ServiceStatus}
use weops_inspect.Collector.Probe.{Failure}
use weops_inspect.Collector.Sections.{parse_sections}
use weops_inspect.Collector.Registry.{SubModule, module_registry}
use weops_inspect.Collector.ServiceCommand.{
  hz_functions, echo_marker, hz_command, is_http_type, healthz_command, sub_commands, all_commands,
  runs_docker, service_command,
}

-- A line "Key=Value" of systemctl show.
unfoldable pub property_of : Str → Option (Str × Str)
unfolding cut_char
property_of line = elim (cut_char b'=' line) [
  | none ↦ none
  | some (key, value) ↦ if is_empty key then none else some (key, value)
]

abbrev pub add_property : Option (Str × Str) → Dict Str → Dict Str
add_property none props = props
add_property (some (key, value)) props = insert key value props

unfoldable pub property_lines : List Str → Dict Str → Dict Str
unfolding property_of trim_space
property_lines [] props = props
property_lines (line ∷ lines) props =
    property_lines lines (add_property (property_of (trim_space line)) props)

-- parseProperties
unfoldable pub parse_properties : Str → Dict Str
unfolding property_lines split_lines
parse_properties output = property_lines (split_lines output) []

unfoldable pub property : Str → Dict Str → Str
unfolding lookup
property key props = get_or [] (lookup key props)

-- The verdict on the answer of a healthz URL, by its type.
unfoldable pub healthz_verdict : Str → Str → Str
unfolding has_substring to_upper
healthz_verdict type hz =
    let failed = if str_eq hz (codes "unreachable") then codes "unreachable" else codes "fail" in
    if str_eq type (codes "http_status")
    then if str_eq hz (codes "200") then codes "ok" else hz
    else if str_eq type (codes "http_alive")
    then if str_eq hz (codes "unreachable") || is_empty hz then codes "unreachable" else codes "ok"
    else if str_eq type (codes "json_ok")
    then if has_substring (codes "\"ok\"") hz
        && (has_substring (codes "true") hz || has_substring (codes "True") hz)
      then codes "ok"
      else failed
    else if str_eq type (codes "json_up")
    then if has_substring (codes "\"UP\"") (to_upper hz) then codes "ok" else failed
    else codes "N/A"

abbrev pub empty_module : Str → ServiceModule
empty_module name = record {
  module_name = name;
  status = [];
  resolved = codes "N/A";
  healthz_api = [];
  main_pid = pos 0;
  start_time = [];
  workers = pos 0;
  render_status = unset;
  healthz_render_status = unset;
}

-- The section of systemctl, where it is read.
unfoldable pub with_service : Option Str → ServiceModule → ServiceModule
unfolding parse_properties property atoi
with_service none sm = sm
with_service (some svc) sm =
    let props = parse_properties svc in
    let state = property (codes "ActiveState") props in
    record sm {
      status = if is_empty state then codes "unknown" else state;
      main_pid = (atoi (property (codes "MainPID") props)).0;
      start_time = property (codes "ExecMainStartTimestamp") props;
    }

unfoldable pub with_healthz : Str → Option Str → ServiceModule → ServiceModule
unfolding healthz_verdict trim_space
with_healthz type none sm = sm
with_healthz type (some hz) sm = record sm { healthz_api = healthz_verdict type (trim_space hz) }

unfoldable pub with_workers : Option Str → ServiceModule → ServiceModule
unfolding atoi trim_space
with_workers none sm = sm
with_workers (some wk) sm = record sm { workers = (atoi (trim_space wk)).0 }

-- The state of one service, from the sections of the output.
unfoldable pub module_of : Dict Str → SubModule → ServiceModule
unfolding with_service with_healthz with_workers lookup
module_of sections sub =
    let svc = lookup (codes "SVC_" ++ sub.name) sections in
    let hz = lookup (codes "HZ_" ++ sub.name) sections in
    let started =
      if sub.skip_status_check
      then empty_module sub.name
      else with_service svc (empty_module sub.name) in
    let probed =
      if sub.skip_healthz_check
      then record started { healthz_api = codes "N/A" }
      else with_healthz sub.healthz_type hz started in
    with_workers (lookup (codes "WK_" ++ sub.name) sections) probed

-- The numbers of containers that are up and that have exited.
unfoldable pub is_up_line : Str → Bool
unfolding has_prefix trim_space
is_up_line line = has_prefix (codes "Up") (trim_space line)

unfoldable pub is_exited_line : Str → Bool
unfolding has_prefix trim_space
is_exited_line line =
    not (has_prefix (codes "Up") (trim_space line)) && has_prefix (codes "Exited") (trim_space line)

abbrev pub empty_service : Str → Str → ServiceStatus
empty_service module_key host = record {
  host_ip = host;
  module_name = module_key;
  services = [];
  containers_up = pos 0;
  containers_exited = pos 0;
  exited_render_status = unset;
  error = [];
}

unfoldable pub with_containers : Option Str → ServiceStatus → ServiceStatus
unfolding count_if is_up_line is_exited_line split_lines
with_containers none s = s
with_containers (some docker) s = record s {
  containers_up = pos (count_if is_up_line (split_lines docker));
  containers_exited = pos (count_if is_exited_line (split_lines docker));
}

-- collectServiceOnHost, on the output and the error of client.Run.
unfoldable pub service_status_of : Str → Str → List SubModule → Str × Option Failure → ServiceStatus
unfolding parse_sections module_of with_containers lookup
service_status_of module_key host subs (out, err) =
    let sections = parse_sections out in
    let read =
      with_containers (lookup (codes "DOCKER") sections)
        (record (empty_service module_key host) { services = map (module_of sections) subs }) in
    elim err [
      | none ↦ read
      | some e ↦
          if is_empty out
          then record (empty_service module_key host) { error = codes "SSH error: " ++ e.text }
          else read
    ]

-- The goroutines that CollectAllServices starts: one for each host of a registered module.
pub record ServiceJob : Type 0 where
  pub module_key : Str
  pub host : Str
  pub subs : List SubModule

-- The goroutines of one module, by its entry of ModuleRegistry.
unfoldable pub jobs_with : ModuleHosts → Option (List SubModule) → List ServiceJob
jobs_with m none = []
jobs_with m (some subs) =
    map (λ ip. record { module_key = m.module_name; host = ip; subs = subs }) m.ips

unfoldable pub module_jobs : ModuleHosts → List ServiceJob
unfolding module_registry lookup jobs_with
module_jobs m = jobs_with m (lookup m.module_name module_registry)

unfoldable pub jobs_of : List ModuleHosts → List ServiceJob
unfolding module_jobs
jobs_of [] = []
jobs_of (m ∷ ms) = module_jobs m ++ jobs_of ms

unfoldable pub service_jobs : Addresses → List ServiceJob
unfolding jobs_of get_module_hosts
service_jobs a = jobs_of (get_module_hosts a)

-- results[module] = append(results[module], status), under the mutex
unfoldable pub add_status :
    Str → ServiceStatus → Dict (List ServiceStatus) → Dict (List ServiceStatus)
unfolding insert lookup
add_status key status results = insert key (get_or [] (lookup key results) ++ status ∷ []) results

-- The argument is client.Run, by host and command.
module _ (run : Str → Str → Str × Option Failure) where
  -- collectServiceOnHost
  unfoldable pub run_job : ServiceJob → ServiceStatus
  unfolding service_status_of service_command
  run_job j =
      service_status_of j.module_key j.host j.subs
        (run j.host (service_command j.module_key j.host j.subs))

  -- CollectAllServices, with its goroutines in the order in which they take the mutex.
  unfoldable pub run_jobs : List ServiceJob → Dict (List ServiceStatus) → Dict (List ServiceStatus)
  unfolding run_job add_status
  run_jobs [] results = results
  run_jobs (j ∷ js) results = run_jobs js (add_status j.module_key (run_job j) results)
