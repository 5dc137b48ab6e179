-- ===== src/Notify/Persistence/Bounds.antt =====
-- notify/persistence.go: the size of the pending map that goes into the state file.
use weops_inspect.Prelude.{
  suc, ◌+◌, ◌≤◌, List, [], ◌∷◌, arith, if◌then◌else◌, length, ℤ, pos, ltb_ℤ, Str, Dict, lookup,
  insert,
}
use weops_inspect.Notify.Alerts.{AlertItem}
use weops_inspect.Notify.Persistence.{
  Time, PendingItem, PersistenceResult, visit, walk, apply_persistence, observe, key_of,
  empty_result,
}

length-insert {ℓ} :
    {V : Type ℓ} (k : Str) (v : V) (m : Dict V) → length (insert k v m) ≤ suc (length m)
unfolding insert
length-insert k v [] = omega arith
length-insert k v ((j, w) ∷ m) = ground (arith, length-insert k v m)

module _ (prev : Dict PendingItem) (n : ℤ) (now : Time) where
  length-walk :
      (items : List AlertItem) (res : PersistenceResult)
      → length (walk prev n now items res).next_pending ≤ length items + length res.next_pending
  unfolding walk visit
  length-walk [] res = omega arith
  length-walk (it ∷ its) res = ground (
    arith,
    length-walk its (visit prev n now it res),
    length-insert (key_of it) (observe (lookup (key_of it) prev) now) res.next_pending,
  )

-- The next pending map has at most one entry for each item of the run, whatever the old one held.
pub length-apply_persistence :
    (items : List AlertItem) (prev : Dict PendingItem) (n : ℤ) (now : Time)
    → length (apply_persistence items prev n now).next_pending ≤ length items
unfolding apply_persistence
length-apply_persistence items prev n now =
    ground (arith, length-walk prev (if ltb_ℤ n (pos 1) then pos 1 else n) now items empty_result)
