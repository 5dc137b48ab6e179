-- ===== src/Collector/Replication/Grading.antt =====
-- collector/replication.go with checker/rules.go: what the rules make of the replication that is collected.
use weops_inspect.Prelude.{
  ℕ, ◌+◌, ◌≡◌, refl, ap, ◌∙◌, inl, inr, false, not, ◌&&◌, some, List, [], ◌∷◌, ◌++◌, map, arith,
  if◌then◌else◌, Bool-cases, is_empty, count_if, ℤ, leb_ℤ, Str, codes, str_eq, str_eq_iff,
  str_eq_refl, Dict,
}
use weops_inspect.Decimal.{itoa}
use weops_inspect.Config.Types.{Thresholds, Config}
use weops_inspect.Model.{
  CheckResult, is_warn, MySqlMasterStatus, MySqlSlaveStatus, RedisReplicationStatus,
  ReplicationReport,
}
use weops_inspect.Checker.Summary.{count_status}
use weops_inspect.Checker.Cells.{sum_of, one_if, report_if, count_status-append}
use weops_inspect.Checker.Host.{make_result}
use weops_inspect.Checker.Replication.{
  check_master, check_slave, check_replica, has_link, over, check_replication,
}
use weops_inspect.Collector.Probe.{Answer}
use weops_inspect.Collector.MySql.{MySqlCalls, status_of}
use weops_inspect.Collector.Redis.{RedisCalls, parse_redis_info, info_get, join_host_port}
use weops_inspect.Collector.Replication.{
  redis_at, collect_mysql_master, collect_mysql_slave, number_of, link_grade, graded_node,
  redis_replication_of, collect_redis_replication, report_of, collect_replication,
}
use weops_inspect.Collector.Replication.Grades.{
  is_writable, is_failing, is_linked, redis_problems, master-warns, bad_grade, warn_grade, not_ltb,
  slave-warns,
}

link_lem :
    (threshold seconds : ℤ) (link : Str)
    → (str_eq (link_grade threshold link seconds) (codes "ok")
        ≡ (str_eq link (codes "up") && leb_ℤ seconds threshold))
      × (is_empty (link_grade threshold link seconds) ≡ false)
      × (str_eq (link_grade threshold link seconds) (codes "N/A") ≡ false)
unfolding link_grade
link_lem threshold seconds link =
    let na : (str_eq (codes "critical") (codes "N/A") ≡ false)
        × (str_eq (codes "warn") (codes "N/A") ≡ false)
        × (str_eq (codes "ok") (codes "N/A") ≡ false) =
      unfold str_eq in (refl, refl, refl) in
    ground (
      arith,
      bad_grade,
      warn_grade,
      str_eq_refl (codes "ok"),
      not_ltb threshold seconds,
      na.0,
      na.1,
      na.2,
    )

roles_differ : str_eq (codes "master") (codes "slave") ≡ false
unfolding str_eq
roles_differ = refl

graded-warns :
    (io_thr : Str) (threshold : ℤ) (info : Dict Str) (r : RedisReplicationStatus)
    → r.link_status ≡ []
    → count_status is_warn (check_replica io_thr (graded_node threshold info r))
      ≡ one_if (not (str_eq r.role_consistency_status (codes "ok")))
        + one_if (str_eq r.role (codes "slave") && not (is_linked threshold info))
unfolding check_replica graded_node has_link is_linked report_if make_result count_status count_if
graded-warns io_thr threshold info r e =
    let link = info_get (codes "master_link_status") info in
    let seconds = number_of (info_get (codes "master_last_io_seconds_ago") info) in
    let grade = link_lem threshold seconds link in
    elim (Bool-cases (str_eq r.role (codes "master"))) [
      | inl h ↦
          let g : str_eq r.role (codes "slave") ≡ false =
            ap (λ role. str_eq role (codes "slave")) ((str_eq_iff r.role (codes "master")).0 h)
            ∙ roles_differ in
          ground (arith, str_eq_refl (codes "N/A"))
      | inr h ↦ elim (Bool-cases (str_eq r.role (codes "slave"))) [
        | inl g ↦ ground (arith, grade.0, grade.1, grade.2)
        | inr g ↦ ground (arith, str_eq_refl (codes "N/A"))
      ]
    ]

replica-warns :
    (io_thr ip declared : Str) (threshold : ℤ) (a : Answer Str)
    → count_status is_warn (check_replica io_thr (redis_replication_of threshold declared ip a))
      ≡ redis_problems threshold declared a
replica-warns io_thr ip declared threshold (inr e) =
    unfold redis_replication_of check_replica has_link report_if make_result count_status count_if
      str_eq in
    refl
replica-warns io_thr ip declared threshold (inl out) =
    let info = parse_redis_info out in
    let role = info_get (codes "role") info in
    unfold redis_replication_of in
    graded-warns io_thr threshold info
      (record (redis_at ip) {
        role = role;
        role_consistency_status = if str_eq role declared then codes "ok" else codes "warn";
      })
      refl
    ∙ ground (arith, warn_grade, str_eq_refl (codes "ok"))

over-count :
    {A : Type 0} (n : A → ℕ) (f : A → List CheckResult)
    → ((x : A) → count_status is_warn (f x) ≡ n x)
    → (xs : List A) → count_status is_warn (over f xs) ≡ sum_of n xs
unfolding over sum_of
over-count n f h [] = unfold count_status count_if in refl
over-count n f h (x ∷ xs) =
    rw (count_status-append is_warn (f x) (over f xs), h x, over-count n f h xs) refl

over-map :
    {A B : Type 0} (f : B → List CheckResult) (g : A → B) (xs : List A)
    → over f (map g xs) ≡ over (λ x. f (g x)) xs
unfolding over
over-map f g [] = refl
over-map f g (x ∷ xs) = ap (λ rs. f (g x) ++ rs) (over-map f g xs)

over-append :
    {A : Type 0} (f : A → List CheckResult) (xs ys : List A)
    → count_status is_warn (over f (xs ++ ys))
      ≡ count_status is_warn (over f xs) + count_status is_warn (over f ys)
unfolding over
over-append f [] ys = unfold count_status count_if in omega arith
over-append f (x ∷ xs) ys = omega (
  arith,
  over-append f xs ys,
  count_status-append is_warn (f x) (over f (xs ++ ys)),
  count_status-append is_warn (f x) (over f xs),
)

check_lists :
    {F : Type 0} (t : Thresholds F) (ms : List MySqlMasterStatus) (ss : List MySqlSlaveStatus)
    (ns : List RedisReplicationStatus)
    → (rep : ReplicationReport)
    → rep ≡ record { mysql_masters = ms; mysql_slaves = ss; redis_nodes = ns }
    → check_replication t (report_of rep) ≡ check_replication t (some rep)
unfolding report_of check_replication over
check_lists t [] [] [] rep e = rw e refl
check_lists t (m ∷ ms) ss ns rep e = rw e refl
check_lists t [] (s ∷ ss) ns rep e = rw e refl
check_lists t [] [] (n ∷ ns) rep e = rw e refl

check_report :
    {F : Type 0} (t : Thresholds F) (rep : ReplicationReport)
    → check_replication t (report_of rep) ≡ check_replication t (some rep)
check_report t rep = check_lists t rep.mysql_masters rep.mysql_slaves rep.redis_nodes rep refl

-- The Warn results for what a loop collects.
collected-count :
    {A B : Type 0} (n : A → ℕ) (f : B → List CheckResult) (g : A → B)
    → ((x : A) → count_status is_warn (f (g x)) ≡ n x)
    → (xs : List A) → count_status is_warn (over f (map g xs)) ≡ sum_of n xs
collected-count n f g h xs =
    ap (count_status is_warn) (over-map f g xs) ∙ over-count n (λ x. f (g x)) h xs

three-count :
    (rs ss ts : List CheckResult)
    → count_status is_warn (rs ++ ss ++ ts)
      ≡ count_status is_warn rs + count_status is_warn ss + count_status is_warn ts
three-count rs ss ts =
    omega (arith, count_status-append is_warn (rs ++ ss) ts, count_status-append is_warn rs ss)

module _ {F : Type 0} (mysql : MySqlCalls) (redis : RedisCalls) (cfg : Config F) where
  abbrev lag_limit : ℤ
  lag_limit = cfg.thresholds.mysql_repl_lag_sec

  abbrev io_limit : ℤ
  io_limit = cfg.thresholds.redis_repl_io_sec

  abbrev pub node_problems : Str → Str → ℕ
  node_problems declared ip =
      redis_problems io_limit declared (redis.replication_info (join_host_port ip cfg.redis_port))

  abbrev lag_text : Str
  lag_text = codes "lag > " ++ itoa lag_limit ++ codes "s"

  abbrev io_text : Str
  io_text = codes "io > " ++ itoa io_limit ++ codes "s"

  declared-count :
      (role : Str) (ips : List Str)
      → count_status is_warn (
          over
            (check_replica io_text)
            (map (collect_redis_replication redis cfg.redis_port io_limit role) ips))
        ≡ sum_of (node_problems role) ips
  unfolding collect_redis_replication
  declared-count role =
      collected-count (node_problems role) (check_replica io_text)
        (collect_redis_replication redis cfg.redis_port io_limit role)
        (λ ip.
          replica-warns io_text ip role io_limit
            (redis.replication_info (join_host_port ip cfg.redis_port)))

  -- The Warn results of CheckReplication on what CollectReplication collects are: one for each declared
  -- master of MySQL that does not answer that it is writable; one for each declared slave that answers
  -- and does not replicate with both threads within the threshold, none for one that does not answer;
  -- one for each declared node of Redis that does not answer, or answers another role than its own; and
  -- one for each node that answers that it is a slave and has no recently used link to its master.
  pub collect_replication-warns :
      count_status is_warn (check_replication cfg.thresholds (collect_replication mysql redis cfg))
      ≡ sum_of
          (λ ip. one_if (not (is_writable (mysql.open_db ip) (mysql.read_only ip))))
          cfg.addresses.mysql_master_ips
        + sum_of
            (λ ip. one_if (is_failing lag_limit (mysql.open_db ip) (status_of (mysql.query ip))))
            cfg.addresses.mysql_slave_ips
        + sum_of (node_problems (codes "master")) cfg.addresses.redis_master_ips
        + sum_of (node_problems (codes "slave")) cfg.addresses.redis_slave_ips
  unfolding collect_replication check_replication collect_mysql_master collect_mysql_slave
      collect_redis_replication
  collect_replication-warns =
      let masters = map (collect_mysql_master mysql) cfg.addresses.mysql_master_ips in
      let slaves = map (collect_mysql_slave mysql lag_limit) cfg.addresses.mysql_slave_ips in
      let declared : Str → Str → RedisReplicationStatus =
        collect_redis_replication redis cfg.redis_port io_limit in
      let up = map (declared (codes "master")) cfg.addresses.redis_master_ips in
      let down = map (declared (codes "slave")) cfg.addresses.redis_slave_ips in
      ap (count_status is_warn) (
        check_report cfg.thresholds
          (record { mysql_masters = masters; mysql_slaves = slaves; redis_nodes = up ++ down }))
      ∙ three-count (over check_master masters) (over (check_slave lag_text) slaves)
          (over (check_replica io_text) (up ++ down))
      ∙ omega (
        arith,
        over-append (check_replica io_text) up down,
        collected-count (λ ip. one_if (not (is_writable (mysql.open_db ip) (mysql.read_only ip))))
            check_master (collect_mysql_master mysql)
            (λ ip. master-warns ip (mysql.open_db ip) (mysql.read_only ip))
            cfg.addresses.mysql_master_ips,
        collected-count
            (λ ip. one_if (is_failing lag_limit (mysql.open_db ip) (status_of (mysql.query ip))))
            (check_slave lag_text) (collect_mysql_slave mysql lag_limit)
            (λ ip.
              slave-warns lag_text ip lag_limit (mysql.open_db ip) (status_of (mysql.query ip)))
            cfg.addresses.mysql_slave_ips,
        declared-count (codes "master") cfg.addresses.redis_master_ips,
        declared-count (codes "slave") cfg.addresses.redis_slave_ips,
      )
