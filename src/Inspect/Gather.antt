-- ===== src/Inspect/Gather.antt =====
-- main.go: what main collects for the configuration, and the hosts of the report.
use weops_inspect.Prelude.{
  ℕ, ◌≡◌, refl, ap, ◌∙◌, inr, true, false, Option, List, [], ◌∷◌, ◌++◌, map, length, filter, pos,
  ltb_ℤ, Str, codes, str_eq, FloatOps,
}
use weops_inspect.Config.Types.{Thresholds, Config}
use weops_inspect.Model.{is_warn, HostMetrics, HostCheckResult}
use weops_inspect.Checker.Host.{
  make_result, check_host, check_usages, check_settings, unexpected, is_overloaded,
}
use weops_inspect.Inspect.{Collected, check_hosts, inspect}
use weops_inspect.Collector.Probe.{Failure, Answer}
use weops_inspect.Collector.Host.{failed_host}
use weops_inspect.Collector.Host.Schedule.{collect_all_hosts, host_report}
use weops_inspect.Collector.Host.Slots.{Covers, collect_all_hosts-map}
use weops_inspect.Collector.Service.{ServiceJob, service_jobs, run_jobs}
use weops_inspect.Collector.Es.{EsCalls, collect_es}
use weops_inspect.Collector.MySql.{MySqlCalls, collect_mysql}
use weops_inspect.Collector.Redis.{RedisCalls, collect_redis_standalone}
use weops_inspect.Collector.Redis.Sentinel.{SentinelCalls, collect_redis_sentinel}
use weops_inspect.Collector.Mongo.{MongoCalls, collect_mongo}
use weops_inspect.Collector.RabbitMq.{RabbitMqCalls, collect_rabbitmq}
use weops_inspect.Collector.Replication.{collect_replication}
use weops_inspect.Collector.BkDeps.{DepCalls, collect_bk_deps}

-- The answers of the world outside, the orders in which the goroutines end, and the clock.
pub record Outside (F : Type 0) : Type 0 where
  pub timestamp : Str
  -- client.Run: cpuStatCmd alone, both commands, and the batch of the services
  pub cpu_sample : Str → Answer Str
  pub host_batch : Str → Str
  pub service_batch : Str → Str → Str × Option Failure
  pub first_order : List ℕ
  pub second_order : List ℕ
  pub service_order : List ServiceJob → List ServiceJob
  pub es : EsCalls F
  pub mysql : MySqlCalls
  pub redis : RedisCalls
  pub sentinel : SentinelCalls
  pub sentinel_master_name : Str
  pub sentinel_port : Str
  pub mongo : MongoCalls
  pub rabbitmq : RabbitMqCalls F
  pub deps : DepCalls

map-append : {A B : Type 0} (f : A → B) (xs ys : List A) → map f (xs ++ ys) ≡ map f xs ++ map f ys
map-append f [] ys = refl
map-append f (x ∷ xs) ys = ap (λ l. f x ∷ l) (map-append f xs ys)

module _ {F : Type 0} ⦃fl : FloatOps F⦄ where
  -- The collectors, as main calls them.
  unfoldable pub gather : Outside F → Config F → Collected F
  unfolding collect_all_hosts service_jobs run_jobs collect_es collect_mysql
      collect_redis_standalone collect_redis_sentinel collect_mongo collect_rabbitmq
      collect_replication collect_bk_deps
  gather o cfg = record {
    timestamp = o.timestamp;
    hosts =
        collect_all_hosts o.cpu_sample o.host_batch cfg.check_mount_path cfg.disk_include_nfs
          cfg.all_hosts o.first_order o.second_order;
    services = run_jobs o.service_batch (o.service_order (service_jobs cfg.addresses)) [];
    es = collect_es o.es cfg.addresses.es7_ips;
    mysql = collect_mysql o.mysql cfg.mysql_port cfg.addresses.mysql_ips;
    redis_standalone = collect_redis_standalone o.redis cfg.redis_port cfg.addresses.redis_ips;
    redis_sentinel =
        collect_redis_sentinel o.sentinel o.sentinel_master_name o.sentinel_port
          cfg.addresses.redis_sentinel_ips;
    mongodb =
        map (λ r. r.0)
          (collect_mongo o.mongo cfg.creds cfg.mongodb_port cfg.mongo_rs_name
            cfg.addresses.mongodb_ips);
    rabbitmq =
        collect_rabbitmq o.rabbitmq cfg.thresholds.rabbitmq_queue_backlog
          cfg.thresholds.rabbitmq_no_consumer_vhost_blacklist cfg.addresses.rabbitmq_ips;
    replication = collect_replication o.mysql o.redis cfg;
    bk_deps = collect_bk_deps o.deps cfg.addresses cfg.bk_monitor_v3;
  }

  abbrev checked : Thresholds F → HostMetrics F → HostCheckResult F
  checked t h = record { metrics = h; checks = check_host h t }

  check_hosts-map :
      (t : Thresholds F) (hs : List (HostMetrics F)) → (check_hosts t hs).0 ≡ map (checked t) hs
  unfolding check_hosts
  check_hosts-map t [] = refl
  check_hosts-map t (h ∷ hs) = ap (λ l. checked t h ∷ l) (check_hosts-map t hs)

  map-map :
      {A B : Type 0} (g : B → HostCheckResult F) (f : A → B) (xs : List A)
      → map g (map f xs) ≡ map (λ x. g (f x)) xs
  map-map g f [] = refl
  map-map g f (x ∷ xs) = ap (λ l. g (f x) ∷ l) (map-map g f xs)

  -- What the report is to hold for a host.
  unfoldable pub host_entry : Outside F → Config F → Str → HostCheckResult F
  unfolding host_report check_host
  host_entry o cfg ip =
      let h = host_report o.cpu_sample o.host_batch cfg.check_mount_path cfg.disk_include_nfs ip in
      record { metrics = h; checks = check_host h cfg.thresholds }

  -- The hosts of the report, for every order in which the goroutines end in which each host has its own
  -- goroutine: one entry for each configured host, in the order of the configuration, with the metrics of
  -- the host on its own and the results of CheckHost on them.
  pub report_hosts-map :
      (o : Outside F) (cfg : Config F)
      → Covers (length cfg.all_hosts) o.first_order
      → Covers (length cfg.all_hosts) o.second_order
      → (inspect cfg.thresholds cfg.addresses.redis_master_ips (gather o cfg)).hosts
        ≡ map (host_entry o cfg) cfg.all_hosts
  unfolding inspect gather host_entry
  report_hosts-map o cfg c1 c2 =
      let report =
        host_report o.cpu_sample o.host_batch cfg.check_mount_path cfg.disk_include_nfs in
      ap (λ hs. (check_hosts cfg.thresholds hs).0)
        (collect_all_hosts-map o.cpu_sample o.host_batch cfg.check_mount_path cfg.disk_include_nfs
          cfg.all_hosts o.first_order o.second_order c1 c2)
      ∙ check_hosts-map cfg.thresholds (map report cfg.all_hosts)
      ∙ map-map (checked cfg.thresholds) report cfg.all_hosts

  -- The address of a host of the report, and the fields of its Warn results.
  unfoldable pub warned_fields : HostCheckResult F → Str × List Str
  unfolding filter
  warned_fields h = (h.metrics.ip, map (λ r. r.field) (filter (λ r. is_warn r.status) h.checks))

  unread_fields :
      (t : Thresholds F) (ip text : Str)
      → fl.ge fl.zero_float t.cpu_usage ≡ false
      → fl.ge fl.zero_float t.mem_usage ≡ false
      → fl.gt fl.zero_float fl.zero_float ≡ false
      → ltb_ℤ (pos 0) t.max_open_files ≡ true
      → warned_fields (checked t (failed_host ip text))
        ≡ (ip, codes "max_open_files" ∷ codes "selinux" ∷ codes "firewalld" ∷ codes "chronyd" ∷ [])
  unfolding warned_fields filter check_host check_usages check_settings make_result failed_host
      unexpected str_eq is_overloaded
  unread_fields t ip text cpu mem load files = rw (cpu, mem, load, files) refl

  unread_host :
      (o : Outside F) (cfg : Config F) (ip : Str) (e : Failure)
      → o.cpu_sample ip ≡ inr e
      → host_report {F = F} ⦃fl = fl⦄ o.cpu_sample o.host_batch cfg.check_mount_path
          cfg.disk_include_nfs ip
        ≡ failed_host ip (codes "SSH error: " ++ e.text)
  unfolding host_report
  unread_host o cfg ip e h = rw (host_report, h) refl

  -- In the report of a whole inspection, where each host has its own goroutine in either order, a
  -- configured host that cannot be reached stands at its place in the configuration with exactly four
  -- Warn results, which are on max_open_files, selinux, firewalld and chronyd, of which nothing was
  -- read; and the other hosts have theirs. This holds where 0 is below the thresholds of CPU and
  -- memory and not above 0, and the threshold of the open files is positive.
  pub unreachable-warns :
      (o : Outside F) (cfg : Config F) (before after : List Str) (ip : Str) (e : Failure)
      → Covers (length cfg.all_hosts) o.first_order
      → Covers (length cfg.all_hosts) o.second_order
      → cfg.all_hosts ≡ before ++ ip ∷ after
      → o.cpu_sample ip ≡ inr e
      → fl.ge fl.zero_float cfg.thresholds.cpu_usage ≡ false
      → fl.ge fl.zero_float cfg.thresholds.mem_usage ≡ false
      → fl.gt fl.zero_float fl.zero_float ≡ false
      → ltb_ℤ (pos 0) cfg.thresholds.max_open_files ≡ true
      → map warned_fields
          (inspect cfg.thresholds cfg.addresses.redis_master_ips (gather o cfg)).hosts
        ≡ map (λ host. warned_fields (host_entry o cfg host)) before
          ++ (
            ip,
            codes "max_open_files" ∷ codes "selinux" ∷ codes "firewalld" ∷ codes "chronyd" ∷ [],
          )
            ∷ map (λ host. warned_fields (host_entry o cfg host)) after
  unreachable-warns o cfg before after ip e c1 c2 split h cpu mem load files =
      ap (map warned_fields) (report_hosts-map o cfg c1 c2)
      ∙ map-fields cfg.all_hosts
      ∙ ap (map fields) split
      ∙ map-append fields before (ip ∷ after)
      ∙ ap (λ w. map fields before ++ w ∷ map fields after)
          (unread_entry
            ∙ unread_fields cfg.thresholds ip (codes "SSH error: " ++ e.text) cpu mem load files)
    where
      fields : Str → Str × List Str
      fields host = warned_fields (host_entry o cfg host)

      map-fields :
          (hosts : List Str) → map warned_fields (map (host_entry o cfg) hosts) ≡ map fields hosts
      map-fields [] = refl
      map-fields (x ∷ xs) = ap (λ l. fields x ∷ l) (map-fields xs)

      failed : HostMetrics F
      failed = failed_host ip (codes "SSH error: " ++ e.text)

      unread_entry : fields ip ≡ warned_fields (checked cfg.thresholds failed)
      unread_entry =
          unfold host_entry in
          ap (λ m. warned_fields (checked cfg.thresholds m)) (unread_host o cfg ip e h)
