-- ===== src/Checker/Mongo.antt =====
-- checker/mongo.go: the rules for MongoDB.
use weops_inspect.Prelude.{Bool, not, List, [], ◌∷◌, ◌++◌, if◌then◌else◌, pos, eqb_ℤ, Str, codes}
use weops_inspect.Decimal.{itoa}
use weops_inspect.Model.{warn, notice, CheckResult, MongoMember, MongoCluster}
use weops_inspect.Checker.Host.{make_result}
use weops_inspect.Checker.Cells.{report_if, flag_if, present, each}
use weops_inspect.Checker.Es.{safe_instance}

-- m.Health != 1
unfoldable pub is_unhealthy : MongoMember → Bool
is_unhealthy m = not (eqb_ℤ m.health (pos 1))

unfoldable pub check_member : Str → MongoMember → MongoMember × List CheckResult
unfolding flag_if report_if make_result itoa is_unhealthy
check_member prefix m = (
  record m { health_status = flag_if (is_unhealthy m) notice },
  report_if (is_unhealthy m)
      (make_result (prefix ++ m.name ++ codes ".health") (itoa m.health) notice []),
)

unfoldable pub mongo_prefix : MongoCluster → Str
unfolding safe_instance
mongo_prefix c = codes "mongo." ++ safe_instance c.instance_name ++ codes "."

unfoldable pub check_mongo_cluster : MongoCluster → MongoCluster × List CheckResult
unfolding make_result check_member mongo_prefix each
check_mongo_cluster c =
    if present c.error
    then (c, make_result (mongo_prefix c ++ codes "error") c.error warn [] ∷ [])
    else let members = each (check_member (mongo_prefix c)) c.members in
      (record c { members = members.0 }, members.1)

unfoldable pub check_mongo : List MongoCluster → List MongoCluster × List CheckResult
unfolding check_mongo_cluster each
check_mongo = each check_mongo_cluster
