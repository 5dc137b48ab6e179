-- ===== src/Collector/RabbitMq/Queues.antt =====
-- collector/rabbitmq.go: the queues that are reported.
use weops_inspect.Prelude.{not, List, map, filter, Dict, FloatOps}
use weops_inspect.Model.{RabbitMqQueue}
use weops_inspect.Collector.Json.{Json}
use weops_inspect.Collector.RabbitMq.{is_skipped, queue_of}

module _ {F : Type 0} ⦃fl : FloatOps F⦄ where
  -- The queues that are not passed over.
  unfoldable pub counted_queues : List (Dict (Json F)) → List RabbitMqQueue
  unfolding filter is_skipped queue_of
  counted_queues qs = map queue_of (filter (λ q. not (is_skipped q)) qs)
