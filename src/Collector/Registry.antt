-- ===== src/Collector/Registry.antt =====
-- collector/service_registry.go: the modules of BlueKing and their services.
use weops_inspect.Prelude.{
  ℕ, ◌≡◌, refl, Bool, true, false, not, none, some, List, [], ◌∷◌, all, is_empty, ℤ, pos, Str,
  codes, str_eq, Dict, lookup,
}
use weops_inspect.Config.Types.{Addresses}
use weops_inspect.Config.Hosts.{get_module_hosts, role_ips}

pub record SubModule : Type 0 where
  pub name : Str
  pub service_unit : Str
  pub process_name : Str
  pub port : ℤ
  pub healthz_path : Str
  pub healthz_type : Str
  pub healthz_port : ℤ
  pub skip_status_check : Bool
  pub skip_healthz_check : Bool

abbrev pub sub_module : Str → Str → Str → ℕ → Str → Str → SubModule
sub_module name service_unit process_name port healthz_path healthz_type = record {
  name = name;
  service_unit = service_unit;
  process_name = process_name;
  port = pos port;
  healthz_path = healthz_path;
  healthz_type = healthz_type;
  healthz_port = pos 0;
  skip_status_check = false;
  skip_healthz_check = false;
}

abbrev pub paas_modules : List SubModule
paas_modules =
    sub_module (codes "appengine") (codes "bk-paas-appengine")
      (codes "uwsgi-open_paas-appengine.ini") 8000 (codes "/v1/healthz/") (codes "http_status")
    ∷ sub_module (codes "console") (codes "bk-paas-console") (codes "uwsgi-open_paas-console.ini")
        8004 (codes "/console/healthz/") (codes "http_status")
    ∷ sub_module (codes "esb") (codes "bk-paas-esb") (codes "uwsgi-open_paas-esb.ini") 8002
        (codes "/healthz/") (codes "http_status")
    ∷ sub_module (codes "login") (codes "bk-paas-login") (codes "uwsgi-open_paas-login.ini") 8003
        (codes "/healthz/") (codes "http_status")
    ∷ sub_module (codes "paas") (codes "bk-paas-paas") (codes "uwsgi-open_paas-paas.ini") 8001
        (codes "/healthz/") (codes "http_status")
    ∷ []

abbrev pub cmdb_modules : List SubModule
cmdb_modules =
    sub_module (codes "cmdb-admin") (codes "bk-cmdb-admin") (codes "cmdb_admin") 9000
      (codes "/healthz") (codes "json_ok")
    ∷ sub_module (codes "cmdb-api") (codes "bk-cmdb-api") (codes "cmdb_api") 9001 (codes "/healthz")
        (codes "json_ok")
    ∷ sub_module (codes "cmdb-auth") (codes "bk-cmdb-auth") (codes "cmdb_auth") 9002
        (codes "/healthz") (codes "json_ok")
    ∷ sub_module (codes "cmdb-cloud") (codes "bk-cmdb-cloud") (codes "cmdb_cloud") 9003
        (codes "/healthz") (codes "json_ok")
    ∷ sub_module (codes "cmdb-core") (codes "bk-cmdb-core") (codes "cmdb_core") 9004
        (codes "/healthz") (codes "json_ok")
    ∷ sub_module (codes "cmdb-datacollection") (codes "bk-cmdb-datacollection")
        (codes "cmdb_datacollection") 9005 (codes "/healthz") (codes "json_ok")
    ∷ sub_module (codes "cmdb-event") (codes "bk-cmdb-event") (codes "cmdb_event") 9006
        (codes "/healthz") (codes "json_ok")
    ∷ sub_module (codes "cmdb-host") (codes "bk-cmdb-host") (codes "cmdb_host") 9007
        (codes "/healthz") (codes "json_ok")
    ∷ sub_module (codes "cmdb-operation") (codes "bk-cmdb-operation") (codes "cmdb_operation") 9008
        (codes "/healthz") (codes "json_ok")
    ∷ sub_module (codes "cmdb-proc") (codes "bk-cmdb-proc") (codes "cmdb_proc") 9009
        (codes "/healthz") (codes "json_ok")
    ∷ sub_module (codes "cmdb-task") (codes "bk-cmdb-task") (codes "cmdb_task") 9011
        (codes "/healthz") (codes "json_ok")
    ∷ sub_module (codes "cmdb-topo") (codes "bk-cmdb-topo") (codes "cmdb_topo") 9012
        (codes "/healthz") (codes "json_ok")
    ∷ sub_module (codes "cmdb-web") (codes "bk-cmdb-web") (codes "cmdb_web") 9013 (codes "/healthz")
        (codes "json_ok")
    ∷ sub_module (codes "cmdb-cache") (codes "bk-cmdb-cache") (codes "cmdb_cache") 9014
        (codes "/healthz") (codes "json_ok")
    ∷ []

abbrev pub job_modules : List SubModule
job_modules =
    sub_module (codes "job-backup") (codes "bk-job-backup") (codes "job-backup") 10507
      (codes "/actuator/health") (codes "json_up")
    ∷ sub_module (codes "job-config") (codes "bk-job-config") (codes "job-config") 10500
        (codes "/actuator/health") (codes "json_up")
    ∷ sub_module (codes "job-crontab") (codes "bk-job-crontab") (codes "job-crontab") 10501
        (codes "/actuator/health") (codes "json_up")
    ∷ sub_module (codes "job-execute") (codes "bk-job-execute") (codes "job-execute") 10502
        (codes "/actuator/health") (codes "json_up")
    ∷ sub_module (codes "job-logsvr") (codes "bk-job-logsvr") (codes "job-logsvr") 10504
        (codes "/actuator/health") (codes "json_up")
    ∷ sub_module (codes "job-manage") (codes "bk-job-manage") (codes "job-manage") 10505
        (codes "/actuator/health") (codes "json_up")
    ∷ record (sub_module (codes "job-analysis") (codes "bk-job-analysis") (codes "job-analysis")
        10508 (codes "/actuator/health") (codes "json_up")) {
          skip_status_check = true;
          skip_healthz_check = true;
        }
    ∷ record (sub_module (codes "job-gateway") (codes "bk-job-gateway") (codes "job-gateway") 10503
        (codes "/actuator/health") (codes "json_up")) { healthz_port = pos 19876 }
    ∷ []

abbrev pub gse_modules : List SubModule
gse_modules =
    sub_module (codes "gse-alarm") (codes "bk-gse-alarm") (codes "gse_alarm") 0 [] (codes "none")
    ∷ sub_module (codes "gse-api") (codes "bk-gse-api") (codes "gse_api") 0 [] (codes "none")
    ∷ sub_module (codes "gse-btsvr") (codes "bk-gse-btsvr") (codes "gse_btsvr") 0 [] (codes "none")
    ∷ sub_module (codes "gse-data") (codes "bk-gse-data") (codes "gse_data") 0 [] (codes "none")
    ∷ sub_module (codes "gse-dba") (codes "bk-gse-dba") (codes "gse_dba") 0 [] (codes "none")
    ∷ sub_module (codes "gse-procmgr") (codes "bk-gse-procmgr") (codes "gse_procmgr") 0 []
        (codes "none")
    ∷ sub_module (codes "gse-config") (codes "bk-gse-config") (codes "gse_config") 0 []
        (codes "none")
    ∷ sub_module (codes "gse-task") (codes "bk-gse-task") (codes "gse_task") 0 [] (codes "none")
    ∷ []

abbrev pub appo_modules : List SubModule
appo_modules =
    sub_module (codes "bk-paasagent") (codes "bk-paasagent") (codes "paasagent") 0 [] (codes "none")
    ∷ []

abbrev pub appt_modules : List SubModule
appt_modules =
    sub_module (codes "bk-paasagent") (codes "bk-paasagent") (codes "paasagent") 0 [] (codes "none")
    ∷ []

abbrev pub iam_modules : List SubModule
iam_modules =
    sub_module (codes "bkiam") (codes "bk-iam") (codes "bkiam") 5001 (codes "/healthz")
      (codes "http_status")
    ∷ []

abbrev pub usermgr_modules : List SubModule
usermgr_modules =
    sub_module (codes "usermgr") (codes "bk-usermgr") (codes "usermgr") 8009 (codes "/healthz/")
      (codes "http_status")
    ∷ []

abbrev pub nodeman_modules : List SubModule
nodeman_modules =
    sub_module (codes "nodeman") (codes "bk-nodeman") (codes "nodeman") 10300 (codes "/")
      (codes "http_alive")
    ∷ []

abbrev pub bkmonitorv3_monitor_modules : List SubModule
bkmonitorv3_monitor_modules =
    sub_module (codes "monitor") (codes "bk-monitor") (codes "supervisord") 10204 (codes "/")
      (codes "http_alive")
    ∷ []

abbrev pub bkmonitorv3_influxdb_proxy_modules : List SubModule
bkmonitorv3_influxdb_proxy_modules =
    sub_module (codes "influxdb-proxy") (codes "bk-influxdb-proxy") (codes "influxdb-proxy") 10203
      (codes "/") (codes "http_alive")
    ∷ []

abbrev pub bkmonitorv3_transfer_modules : List SubModule
bkmonitorv3_transfer_modules =
    sub_module (codes "transfer") (codes "bk-transfer") (codes "transfer") 10202 (codes "/")
      (codes "http_alive")
    ∷ []

abbrev pub bkmonitorv3_unify_query_modules : List SubModule
bkmonitorv3_unify_query_modules =
    sub_module (codes "unify-query") (codes "bk-unify-query") (codes "unify-query") 10206
      (codes "/") (codes "http_alive")
    ∷ []

-- ModuleRegistry
unfoldable pub module_registry : Dict (List SubModule)
module_registry =
    (codes "paas", paas_modules)
    ∷ (codes "cmdb", cmdb_modules)
    ∷ (codes "job", job_modules)
    ∷ (codes "gse", gse_modules)
    ∷ (codes "appo", appo_modules)
    ∷ (codes "appt", appt_modules)
    ∷ (codes "iam", iam_modules)
    ∷ (codes "usermgr", usermgr_modules)
    ∷ (codes "nodeman", nodeman_modules)
    ∷ (codes "bkmonitorv3-monitor", bkmonitorv3_monitor_modules)
    ∷ (codes "bkmonitorv3-influxdb-proxy", bkmonitorv3_influxdb_proxy_modules)
    ∷ (codes "bkmonitorv3-transfer", bkmonitorv3_transfer_modules)
    ∷ (codes "bkmonitorv3-unify-query", bkmonitorv3_unify_query_modules)
    ∷ []

abbrev pub is_registered : Str → Bool
is_registered key = elim (lookup key module_registry) [
  | none ↦ false
  | some subs ↦ not (is_empty subs)
]

-- Every module that GetModuleHosts lists is in ModuleRegistry, with at least one service, whatever the
-- addresses: CollectAllServices passes over none of them.
pub module_hosts-registered :
    (a : Addresses) → all (λ m. is_registered m.module_name) (get_module_hosts a) ≡ true
unfolding all get_module_hosts module_registry lookup str_eq role_ips
module_hosts-registered a = refl
