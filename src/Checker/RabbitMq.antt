-- ===== src/Checker/RabbitMq.antt =====
-- checker/rabbitmq.go: the rules for RabbitMQ.
use weops_inspect.Prelude.{
  Bool, Option, none, some, List, [], ◌∷◌, ◌++◌, if◌then◌else◌, ℤ, pos, ltb_ℤ, Str, codes,
}
use weops_inspect.Decimal.{itoa}
use weops_inspect.Model.{unset, warn, CheckResult, RabbitMqAlarm, RabbitMqQueue, RabbitMqStatus}
use weops_inspect.Config.Types.{Thresholds}
use weops_inspect.Checker.Host.{make_result}
use weops_inspect.Checker.Cells.{report_if, flag_if, present, each}

unfoldable pub check_alarm : RabbitMqAlarm → RabbitMqAlarm × List CheckResult
unfolding flag_if report_if make_result
check_alarm a =
    let prefix = codes "rabbitmq.node." ++ a.node in
    (
      record a {
        mem_status = flag_if a.mem_alarm warn;
        disk_free_status = flag_if a.disk_free_alarm warn;
      },
      report_if a.mem_alarm (make_result (prefix ++ codes ".mem_alarm") (codes "true") warn [])
          ++ report_if a.disk_free_alarm
              (make_result (prefix ++ codes ".disk_free_alarm") (codes "true") warn []),
    )

unfoldable pub queue_name : RabbitMqQueue → Str
queue_name q = codes "rabbitmq." ++ q.vhost ++ codes "." ++ q.queue

unfoldable pub check_exceeding : Str → RabbitMqQueue → RabbitMqQueue × List CheckResult
unfolding make_result itoa queue_name
check_exceeding backlog_thr q = (
  record q { message_status = warn },
  make_result (queue_name q ++ codes ".backlog")
        (itoa q.message_count ++ codes " msgs / " ++ itoa q.consumers ++ codes " consumers") warn
        backlog_thr
      ∷ [],
)

unfoldable pub check_no_consumer : RabbitMqQueue → RabbitMqQueue × List CheckResult
unfolding make_result itoa queue_name
check_no_consumer q = (
  record q { consumer_status = warn },
  make_result (queue_name q ++ codes ".no_consumer") (itoa q.message_count ++ codes " msgs") warn []
      ∷ [],
)

unfoldable pub is_abnormal : RabbitMqStatus → Bool
is_abnormal r = ltb_ℤ (pos 0) r.abnormal_connections

unfoldable pub check_rabbitmq_status : ℤ → RabbitMqStatus → RabbitMqStatus × List CheckResult
unfolding flag_if report_if make_result itoa is_abnormal check_alarm check_exceeding
    check_no_consumer each
check_rabbitmq_status backlog r =
    let alarms = each check_alarm r.node_alarms in
    let exceeding =
      each (check_exceeding (codes "> " ++ itoa backlog ++ codes " msgs")) r.exceeding_queues in
    let idle = each check_no_consumer r.no_consumer_queues in
    (
      record r {
        partition_status = flag_if r.cluster_partition warn;
        abnormal_conn_status = if is_abnormal r then warn else unset;
        node_alarms = alarms.0;
        exceeding_queues = exceeding.0;
        no_consumer_queues = idle.0;
      },
      report_if (present r.error) (make_result (codes "rabbitmq.error") r.error warn [])
          ++ report_if (present r.queues_error)
              (make_result (codes "rabbitmq.queues_error") r.queues_error warn [])
          ++ report_if r.cluster_partition
              (make_result (codes "rabbitmq.cluster_partition") (codes "true") warn [])
          ++ report_if (is_abnormal r) (
              make_result (codes "rabbitmq.abnormal_connections") (itoa r.abnormal_connections) warn
                [])
          ++ alarms.1
          ++ exceeding.1
          ++ idle.1,
    )

unfoldable pub check_rabbitmq :
    {F : Type 0} → Thresholds F → Option RabbitMqStatus → Option RabbitMqStatus × List CheckResult
unfolding check_rabbitmq_status
check_rabbitmq t none = (none, [])
check_rabbitmq t (some r) =
    let (after, results) = check_rabbitmq_status t.rabbitmq_queue_backlog r in (some after, results)
