-- ===== src/Config/Hosts.antt =====
-- config/config.go: the hosts of the modules, and the list of all hosts.
use weops_inspect.Prelude.{
  ℕ, ◌≡◌, refl, ap, ◌∙◌, Bool, true, ◌||◌, List, [], ◌∷◌, ◌++◌, map, arith, if◌then◌else◌, any,
  is_empty, count_if, count_if-append, any-append, Str, codes, str_eq, str_eq_iff,
}
use weops_inspect.Config.Types.{ModuleHosts, Addresses}
use weops_inspect.Prelude.Strings.{contains}

-- roleIPs: the list of the role, or that of bkmonitorv3 where it is empty.
unfoldable pub role_ips : Addresses → List Str → List Str
role_ips a role = if is_empty role then a.monitor_v3_ips else role

unfoldable pub get_module_hosts : Addresses → List ModuleHosts
unfolding role_ips
get_module_hosts a =
    record { module_name = codes "paas"; ips = a.paas_ips }
    ∷ record { module_name = codes "cmdb"; ips = a.cmdb_ips }
    ∷ record { module_name = codes "job"; ips = a.job_ips }
    ∷ record { module_name = codes "gse"; ips = a.gse_ips }
    ∷ record { module_name = codes "appo"; ips = a.appo_ips }
    ∷ record { module_name = codes "appt"; ips = a.appt_ips }
    ∷ record { module_name = codes "iam"; ips = a.iam_ips }
    ∷ record { module_name = codes "usermgr"; ips = a.user_mgr_ips }
    ∷ record { module_name = codes "nodeman"; ips = a.node_man_ips }
    ∷ record {
      module_name = codes "bkmonitorv3-monitor";
      ips = role_ips a a.monitor_v3_monitor_ips;
    }
    ∷ record {
      module_name = codes "bkmonitorv3-influxdb-proxy";
      ips = role_ips a a.monitor_v3_influxdb_proxy_ips;
    }
    ∷ record {
      module_name = codes "bkmonitorv3-transfer";
      ips = role_ips a a.monitor_v3_transfer_ips;
    }
    ∷ record {
      module_name = codes "bkmonitorv3-unify-query";
      ips = role_ips a a.monitor_v3_unify_query_ips;
    }
    ∷ []

-- allIPs
unfoldable pub host_lists : Addresses → List (List Str)
host_lists a =
    a.paas_ips ∷ a.cmdb_ips ∷ a.job_ips ∷ a.gse_ips ∷ a.appo_ips ∷ a.appt_ips ∷ a.iam_ips
    ∷ a.user_mgr_ips ∷ a.node_man_ips ∷ a.monitor_v3_ips ∷ a.monitor_v3_monitor_ips
    ∷ a.monitor_v3_influxdb_proxy_ips ∷ a.monitor_v3_transfer_ips ∷ a.monitor_v3_unify_query_ips
    ∷ a.es7_ips ∷ a.rabbitmq_ips ∷ a.mysql_ips ∷ a.mongodb_ips ∷ a.redis_ips ∷ a.redis_sentinel_ips
    ∷ []

-- The inner loop: the addresses seen so far, in the order in which they were appended.
unfoldable pub add_ips : List Str → List Str → List Str
unfolding contains
add_ips hosts [] = hosts
add_ips hosts (ip ∷ ips) = add_ips (if contains ip hosts then hosts else hosts ++ ip ∷ []) ips

unfoldable pub add_lists : List Str → List (List Str) → List Str
unfolding add_ips
add_lists hosts [] = hosts
add_lists hosts (ips ∷ lists) = add_lists (add_ips hosts ips) lists

unfoldable pub build_all_hosts : Addresses → List Str
unfolding add_lists host_lists
build_all_hosts a = add_lists [] (host_lists a)

-- How often an address stands in a list.
unfoldable pub occurrences : Str → List Str → ℕ
occurrences h = count_if (str_eq h)

abbrev pub one_if : Bool → ℕ
one_if b = if b then 1 else 0

-- The address is there at most once.
abbrev IsOnce : Str → List Str → Type 0
IsOnce h hosts = occurrences h hosts ≡ one_if (contains h hosts)

abbrev add_ip : Str → List Str → List Str
add_ip ip hosts = if contains ip hosts then hosts else hosts ++ ip ∷ []

contains-same :
    (h ip : Str) (hosts : List Str) → str_eq h ip ≡ true → contains h hosts ≡ contains ip hosts
contains-same h ip hosts e = ap (λ s. contains s hosts) ((str_eq_iff h ip).0 e)

contains-add_ip :
    (h ip : Str) (hosts : List Str)
    → contains h (add_ip ip hosts) ≡ (contains h hosts || str_eq h ip)
unfolding contains any
contains-add_ip h ip hosts =
    ground (arith, any-append (str_eq h) hosts (ip ∷ []), contains-same h ip hosts)

add_ip-IsOnce : (h ip : Str) (hosts : List Str) → IsOnce h hosts → IsOnce h (add_ip ip hosts)
unfolding occurrences count_if
add_ip-IsOnce h ip hosts once = ground (
  arith,
  count_if-append (str_eq h) hosts (ip ∷ []),
  contains-same h ip hosts,
  contains-add_ip h ip hosts,
)

module _ (h : Str) where
  contains-add_ips :
      (hosts ips : List Str) → contains h (add_ips hosts ips) ≡ (contains h hosts || contains h ips)
  unfolding add_ips contains any
  contains-add_ips hosts [] = ground arith
  contains-add_ips hosts (ip ∷ ips) =
      ground (arith, contains-add_ips (add_ip ip hosts) ips, contains-add_ip h ip hosts)

  add_ips-IsOnce : (hosts ips : List Str) → IsOnce h hosts → IsOnce h (add_ips hosts ips)
  unfolding add_ips
  add_ips-IsOnce hosts [] once = once
  add_ips-IsOnce hosts (ip ∷ ips) once =
      add_ips-IsOnce (add_ip ip hosts) ips (add_ip-IsOnce h ip hosts once)

  contains-add_lists :
      (hosts : List Str) (lists : List (List Str))
      → contains h (add_lists hosts lists) ≡ (contains h hosts || any (contains h) lists)
  unfolding add_lists any
  contains-add_lists hosts [] = ground arith
  contains-add_lists hosts (ips ∷ lists) =
      ground (arith, contains-add_lists (add_ips hosts ips) lists, contains-add_ips hosts ips)

  add_lists-IsOnce :
      (hosts : List Str) (lists : List (List Str))
      → IsOnce h hosts
      → IsOnce h (add_lists hosts lists)
  unfolding add_lists
  add_lists-IsOnce hosts [] once = once
  add_lists-IsOnce hosts (ips ∷ lists) once =
      add_lists-IsOnce (add_ips hosts ips) lists (add_ips-IsOnce hosts ips once)

-- An address stands once in the list of all hosts if it stands in one of the twenty lists, however
-- many of them and however often, and else not at all.
pub build_all_hosts_once :
    (a : Addresses) (h : Str)
    → occurrences h (build_all_hosts a) ≡ one_if (any (contains h) (host_lists a))
unfolding build_all_hosts
build_all_hosts_once a h =
    add_lists-IsOnce h [] (host_lists a) (unfold contains any occurrences count_if in refl)
    ∙ ap one_if (contains-add_lists h [] (host_lists a) ∙ unfold contains any in refl)

role-covered :
    (a : Addresses) (h : Str) (r : List Str)
    → contains h (role_ips a r) ≡ true
    → (contains h r || contains h a.monitor_v3_ips) ≡ true
unfolding role_ips
role-covered a h r e = ground arith

-- The hosts of a module.
abbrev pub ips_of : List ModuleHosts → List (List Str)
ips_of = map (λ m. m.ips)

-- Every host of a module is among all hosts, also where a role of bkmonitorv3 falls back.
pub module_hosts_inspected :
    (a : Addresses) (h : Str)
    → any (contains h) (ips_of (get_module_hosts a)) ≡ true
    → contains h (build_all_hosts a) ≡ true
unfolding build_all_hosts get_module_hosts host_lists any
module_hosts_inspected a h e = ground (
  arith,
  contains-add_lists h [] (host_lists a),
  role-covered a h a.monitor_v3_monitor_ips,
  role-covered a h a.monitor_v3_influxdb_proxy_ips,
  role-covered a h a.monitor_v3_transfer_ips,
  role-covered a h a.monitor_v3_unify_query_ips,
)
