-- ===== src/Model/Host.antt =====
-- model/types.go: the metrics of a host.
use weops_inspect.Prelude.{Str, ℤ, List}
use weops_inspect.Model.Check.{CheckResult}

pub record DiskUsage (F : Type 0) : Type 0 where
  pub mount_point : Str
  pub fs_type : Str
  pub usage : Str
  pub usage_float : F

pub record NetworkStats : Type 0 where
  pub close_wait : ℤ
  pub established : ℤ
  pub listen : ℤ
  pub time_wait : ℤ

pub record HostMetrics (F : Type 0) : Type 0 where
  pub ip : Str
  pub cpu_usage : F
  pub mem_usage : F
  pub load_avg1 : F
  pub load_avg5 : F
  pub load_avg15 : F
  pub swap_usage : F
  pub disk_usage : List (DiskUsage F)
  pub inode_usage : List (DiskUsage F)
  pub max_open_files : ℤ
  pub process_total : ℤ
  pub ntpd : Str
  pub chronyd : Str
  pub selinux : Str
  pub firewalld : Str
  pub proxy : ℤ
  pub iptables : Str
  pub network : NetworkStats
  pub run_days : ℤ
  pub version : Str
  pub kernel : Str
  pub memory : F
  pub swap : F
  pub core : ℤ
  pub manufacturer : Str
  pub product : Str
  pub serial : Str
  pub error : Str

pub record HostCheckResult (F : Type 0) : Type 0 where
  pub metrics : HostMetrics F
  pub checks : List CheckResult
