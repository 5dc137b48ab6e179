-- ===== src/Model/Service.antt =====
-- model/types.go: the state of the BlueKing modules.
use weops_inspect.Prelude.{Str, ℤ, List}
use weops_inspect.Model.Check.{CheckStatus}

pub record ServiceModule : Type 0 where
  pub module_name : Str
  pub status : Str
  pub resolved : Str
  pub healthz_api : Str
  pub main_pid : ℤ
  pub start_time : Str
  pub workers : ℤ
  pub render_status : CheckStatus
  pub healthz_render_status : CheckStatus

pub record ServiceStatus : Type 0 where
  pub host_ip : Str
  pub module_name : Str
  pub services : List ServiceModule
  pub containers_up : ℤ
  pub containers_exited : ℤ
  pub exited_render_status : CheckStatus
  pub error : Str

pub record DependencyResult : Type 0 where
  pub item : Str
  pub endpoint : Str
  pub status : Str
  pub detail : Str
  pub render_status : CheckStatus

pub record BkMonitorV3Section : Type 0 where
  pub dependencies : List DependencyResult
