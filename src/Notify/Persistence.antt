-- ===== src/Notify/Persistence.antt =====
-- notify/persistence.go: the confirmation of alerts over consecutive runs.
pub mod Gate
pub mod Bounds
pub mod Runs
use weops_inspect.Prelude.{
  ℕ, zero, suc, ◌+◌, ◌-◌, ◌*◌, ◌/◌, ◌%◌, ◌^◌, ◌≤◌, ◌<◌, ◌≡◌, refl, sym, ap, ◌∙◌, ◌≢◌, ◌↔◌, ◌⊎◌, inl,
  inr, Bool, true, false, not, ◌&&◌, ◌||◌, Option, none, some, List, [], ◌∷◌, ◌++◌, map, arith, ltb,
  leb, ◌==◌, if◌then◌else◌, ltb→lt, lt→ltb, leb→le, ==_iff, tests, Bool-cases, Option-cases, length,
  length-append, filter, any, all, count_if, length-filter, count_if-append, any-append, all-append,
  ℤ, pos, negsuc, pos_part, neg_part, sub_ℕ, ◌≤ℤ◌, ltb_ℤ, leb_ℤ, eqb_ℤ, succ_int, Str, codes,
  str_eq, str_eq_iff, str_eq_refl, str_eq_sym, str_lt, str_lt_irrefl, str_lt_trans, str_lt_total,
  Dict, lookup, insert, lookup-insert, get_or, FloatOps,
}
use weops_inspect.Prelude.Int.{max_int}
use weops_inspect.Notify.Alerts.{AlertItem}

-- time.Time as nanoseconds since the zero time, and time.Duration as its int64.
abbrev pub Time : Type 0
Time = ℕ

abbrev pub Duration : Type 0
Duration = ℤ

-- a.Sub(b), which saturates at the largest and the smallest Duration.
unfoldable pub sub_time : Time → Time → Duration
sub_time a b =
    if leb b a
    then pos (if ltb max_int (a - b) then max_int else a - b)
    else negsuc (if ltb max_int (b - a - 1) then max_int else b - a - 1)

-- 24 * time.Hour
abbrev pub pending_ttl : Duration
pending_ttl = pos 86400000000000

pub record PendingItem : Type 0 where
  pub count : ℤ
  pub first_seen : Time

unfoldable pub pending_key : Str → Str → Str
pending_key host field = host ++ b'|' ∷ field

pub record PersistenceResult : Type 0 where
  pub filtered : List AlertItem
  pub next_pending : Dict PendingItem
  pub pending_keys : Dict Bool

abbrev pub key_of : AlertItem → Str
key_of it = pending_key it.host it.field

-- newCount and firstSeen: a fresh entry goes on counting, any other key starts at 1.
unfoldable pub observe : Option PendingItem → Time → PendingItem
observe none now = record { count = pos 1; first_seen = now }
observe (some entry) now =
    if ltb_ℤ (sub_time now entry.first_seen) pending_ttl
    then record { count = succ_int entry.count; first_seen = entry.first_seen }
    else record { count = pos 1; first_seen = now }

-- One round of the loop over the items.
unfoldable pub visit :
    Dict PendingItem → ℤ → Time → AlertItem → PersistenceResult → PersistenceResult
visit prev n now it res =
    let key = key_of it in
    let seen = observe (lookup key prev) now in
    if leb_ℤ n seen.count then record res { filtered = res.filtered ++ it ∷ [] } else record res {
      next_pending = insert key seen res.next_pending;
      pending_keys = insert key true res.pending_keys;
    }

unfoldable pub walk :
    Dict PendingItem → ℤ → Time → List AlertItem → PersistenceResult → PersistenceResult
walk prev n now [] res = res
walk prev n now (it ∷ its) res = walk prev n now its (visit prev n now it res)

abbrev pub empty_result : PersistenceResult
empty_result = record { filtered = []; next_pending = []; pending_keys = [] }

-- A nil map reads as an empty one, so `prev` is a map.
unfoldable pub apply_persistence : List AlertItem → Dict PendingItem → ℤ → Time → PersistenceResult
apply_persistence items prev n now =
    let runs = if ltb_ℤ n (pos 1) then pos 1 else n in
    if eqb_ℤ runs (pos 1)
    then record empty_result { filtered = items }
    else walk prev runs now items empty_result

abbrev pub status_alert : Str
status_alert = codes "alert"

abbrev pub status_ok : Str
status_ok = codes "ok"

unfoldable pub update_recovery_streak : ℤ → Str → Bool → ℤ
update_recovery_streak prev_streak prev_status raw_warns_empty =
    if not (str_eq prev_status status_alert)
    then pos 0
    else if not raw_warns_empty
    then pos 0
    else succ_int prev_streak
