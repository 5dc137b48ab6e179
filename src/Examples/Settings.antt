-- ===== src/Examples/Settings.antt =====
-- The settings from the environment.
use weops_inspect.Prelude.{◌≡◌, refl, true, some, [], ◌∷◌, ◌++◌, any, codes, str_eq}
use weops_inspect.Config.Types.{Addresses}
use weops_inspect.Config.Env.{error_of, Env}
use weops_inspect.Config.Hosts.{
  get_module_hosts, host_lists, build_all_hosts, occurrences, one_if, ips_of, build_all_hosts_once,
  module_hosts_inspected,
}
use weops_inspect.Config.Load.{load_config}
use weops_inspect.Config.Errors.{threshold_keys, other_keys, first_error, error-load_config}
use weops_inspect.Prelude.Strings.{contains}
use weops_inspect.Examples.{whole}

-- Two lists share a host, and bkmonitorv3 has only its common list.
abbrev addresses : Addresses
addresses = record {
  paas_ips = codes "10.0.0.1" ∷ [];
  cmdb_ips = codes "10.0.0.1" ∷ [];
  job_ips = [];
  gse_ips = [];
  appo_ips = [];
  appt_ips = [];
  iam_ips = [];
  user_mgr_ips = [];
  node_man_ips = [];
  monitor_v3_ips = codes "10.0.0.2" ∷ [];
  monitor_v3_monitor_ips = [];
  monitor_v3_influxdb_proxy_ips = [];
  monitor_v3_transfer_ips = [];
  monitor_v3_unify_query_ips = [];
  es7_ips = [];
  mysql_ips = [];
  mysql_master_ips = [];
  mysql_slave_ips = [];
  redis_ips = [];
  redis_master_ips = [];
  redis_slave_ips = [];
  redis_sentinel_ips = [];
  mongodb_ips = [];
  rabbitmq_ips = [];
}

build_all_hosts_once_example :
    occurrences (codes "10.0.0.1") (build_all_hosts addresses)
    ≡ one_if (any (contains (codes "10.0.0.1")) (host_lists addresses))
build_all_hosts_once_example = build_all_hosts_once addresses (codes "10.0.0.1")

fallback_host : any (contains (codes "10.0.0.2")) (ips_of (get_module_hosts addresses)) ≡ true
unfolding any contains get_module_hosts str_eq
fallback_host = refl

module_hosts_inspected_example : contains (codes "10.0.0.2") (build_all_hosts addresses) ≡ true
module_hosts_inspected_example = module_hosts_inspected addresses (codes "10.0.0.2") fallback_host

-- Every variable is set to a text that is no number.
abbrev bad_env : Env
bad_env key = some (codes "many")

error-load_config_example :
    error_of (load_config ⦃fl = whole⦄ bad_env (codes "."))
    ≡ first_error whole bad_env (threshold_keys ++ other_keys)
error-load_config_example = error-load_config whole bad_env (codes ".")
