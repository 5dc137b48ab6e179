-- ===== src/Model/Report.antt =====
-- model/types.go: the report of one run.
use weops_inspect.Prelude.{Str, List, Option}
use weops_inspect.Prelude.Dictionary.{Dict}
use weops_inspect.Model.Check.{CheckResult, CheckSummary}
use weops_inspect.Model.Host.{HostCheckResult}
use weops_inspect.Model.Service.{ServiceStatus, BkMonitorV3Section}
use weops_inspect.Model.Search.{EsCluster}
use weops_inspect.Model.Database.{MySqlCluster, MongoCluster, ReplicationReport}
use weops_inspect.Model.Queue.{RedisNode, SentinelClusterStatus, RabbitMqStatus}

pub record InspectReport (F : Type 0) : Type 0 where
  pub timestamp : Str
  pub hosts : List (HostCheckResult F)
  pub services : Dict (List ServiceStatus)
  pub es : List (EsCluster F)
  pub mysql : List MySqlCluster
  pub redis_standalone : List RedisNode
  pub redis_sentinel : Option SentinelClusterStatus
  pub mongodb : List MongoCluster
  pub rabbitmq : Option RabbitMqStatus
  pub replication : Option ReplicationReport
  pub bk_monitor_v3 : Option BkMonitorV3Section
  pub summary : CheckSummary
  pub all_checks : List CheckResult
