-- ===== src/Notify/Persistence/Runs.antt =====
-- notify/persistence.go over consecutive runs: the pending map that one run leaves is the one that
-- the next run reads.
use weops_inspect.Prelude.{
  ℕ, suc, ◌+◌, ◌%◌, ◌≤◌, ◌<◌, ◌≡◌, refl, Bool, true, false, not, ◌&&◌, ◌||◌, Option, none, some,
  List, [], ◌∷◌, arith, ◌==◌, if◌then◌else◌, length, filter, any, ℤ, pos, ◌≤ℤ◌, leb_ℤ, Str,
  str_eq_iff, Dict, lookup,
}
use native.Mathlib.Nat.{mod-lt, mod_self, mod-eq_of_lt, suc-mod, zero-mod}
use weops_inspect.Prelude.Int.{max_int}
use weops_inspect.Notify.Alerts.{AlertItem}
use weops_inspect.Notify.Persistence.{
  Time, PendingItem, sub_time, observe, key_of, apply_persistence,
}
use weops_inspect.Notify.Persistence.Gate.{has_key, confirmed, Gated, apply_persistence-Gated}

pub record Run : Type 0 where
  pub items : List AlertItem
  pub now : Time

-- The pending map after a history of runs, the newest first, from a cold start.
unfoldable pub pending_after : ℤ → List Run → Dict PendingItem
pending_after n [] = []
pending_after n (r ∷ rs) = (apply_persistence r.items (pending_after n rs) n r.now).next_pending

-- What the newest run lets through.
unfoldable pub passed_at : ℤ → List Run → Run → List AlertItem
passed_at n rs r = (apply_persistence r.items (pending_after n rs) n r.now).filtered

-- In how many of the newest runs the key was there, without a gap.
unfoldable pub streak : Str → List Run → ℕ
streak k [] = 0
streak k (r ∷ rs) = let rest = streak k rs in if has_key k r.items then suc rest else 0

has_key-filter :
    (p : Str → Bool) (k : Str) (items : List AlertItem)
    → has_key k (filter (λ it. p (key_of it)) items) ≡ (has_key k items && p k)
unfolding has_key filter any
has_key-filter p k [] = refl
has_key-filter p k (it ∷ its) = ground (arith, has_key-filter p k its, str_eq_iff (key_of it) k)

module _ (n : ℤ) (k : Str) where
  gated :
      (rs : List Run) (r : Run)
      → Gated
          (pending_after n rs)
          n
          r.now
          r.items
          (apply_persistence r.items (pending_after n rs) n r.now)
  gated rs r = apply_persistence-Gated r.items (pending_after n rs) n r.now

  -- The key of the newest run's passed items.
  has_key-passed_at :
      (rs : List Run) (r : Run)
      → has_key k (passed_at n rs r)
        ≡ (has_key k r.items && confirmed (pending_after n rs) n r.now k)
  unfolding passed_at
  has_key-passed_at rs r =
      rw ((gated rs r).passed) (has_key-filter (confirmed (pending_after n rs) n r.now) k r.items)

  lookup-pending_after :
      (rs : List Run) (r : Run)
      → lookup k (pending_after n (r ∷ rs)) ≡ (
          if has_key k r.items && not (confirmed (pending_after n rs) n r.now k)
          then some (observe (lookup k (pending_after n rs)) r.now)
          else none)
  unfolding pending_after
  lookup-pending_after rs r = (gated rs r).kept k

-- The count of an entry is at most c.
abbrev AtMost : ℕ → Option PendingItem → Type 0
AtMost c none = Unit
AtMost c (some e) = e.count ≤ℤ pos c

observe-AtMost :
    (c : ℕ) (o : Option PendingItem) (now : Time)
    → AtMost c o
    → (observe o now).count ≤ℤ pos (suc c)
unfolding observe
observe-AtMost c none now h = omega arith
observe-AtMost c (some e) now h = ground arith

pending_after-AtMost :
    (n : ℤ) (k : Str) (rs : List Run) → AtMost (streak k rs) (lookup k (pending_after n rs))
unfolding streak
pending_after-AtMost n k [] = unfold pending_after lookup in tt
pending_after-AtMost n k (r ∷ rs) = rw (lookup-pending_after n k rs r) (
    ground (
      arith,
      observe-AtMost (streak k rs) (lookup k (pending_after n rs)) r.now
          (pending_after-AtMost n k rs),
    ))

-- With n > 1, a key that passes in a run, over any history from an empty pending map, was there
-- in each of the last n runs, that one included.
pub passed_at-streak :
    (n : ℕ) (k : Str) (rs : List Run) (r : Run)
    → 1 < n
    → has_key k (passed_at (pos n) rs r) ≡ true
    → n ≤ streak k (r ∷ rs)
unfolding streak confirmed
passed_at-streak n k rs r h p = ground (
  arith,
  has_key-passed_at (pos n) k rs r,
  observe-AtMost (streak k rs) (lookup k (pending_after (pos n) rs)) r.now
      (pending_after-AtMost (pos n) k rs),
)

-- The key is in the run, and the run is within 24 hours of t0.
pub record IsSteady (k : Str) (t0 : Time) (r : Run) : Type 0 where
  pub present : has_key k r.items ≡ true
  pub since : t0 ≤ r.now
  pub within : r.now < t0 + 86400000000000

abbrev pub AllSteady : Str → Time → List Run → Type 0
AllSteady k t0 [] = Unit
AllSteady k t0 (r ∷ rs) = IsSteady k t0 r × AllSteady k t0 rs

-- An entry with the count c that is not older than t0.
abbrev IsAt : Time → ℕ → Option PendingItem → Type 0
IsAt t0 c none = c ≡ 0
IsAt t0 c (some e) = (e.count ≡ pos c) × (t0 ≤ e.first_seen)

-- The sightings since the last pass, after one more.
abbrev next_count : ℕ → ℕ → ℕ
next_count n c = if c + 1 == n then 0 else c + 1

observe_steady :
    (t0 c : ℕ) (o : Option PendingItem) (now : Time)
    → c < max_int
    → t0 ≤ now
    → now < t0 + 86400000000000
    → IsAt t0 c o
    → ((observe o now).count ≡ pos (c + 1)) × (t0 ≤ (observe o now).first_seen)
unfolding observe sub_time
observe_steady t0 c none now h a b i = ground arith
observe_steady t0 c (some e) now h a b i = ground arith

next_count-step :
    (n c t0 : ℕ) (present conf : Bool) (e : PendingItem)
    → 1 < n
    → present ≡ true
    → conf ≡ (leb_ℤ (pos n) (pos 1) || leb_ℤ (pos n) e.count)
    → (e.count ≡ pos (c + 1)) × (t0 ≤ e.first_seen)
    → c < n
    → IsAt t0 (next_count n c) (if present && not conf then some e else none)
      × (conf ≡ (c + 1 == n))
next_count-step n c t0 present conf e h p q i l = ground arith

next_count-mod : (n m : ℕ) → 1 < n → next_count n (m % n) ≡ suc m % n
next_count-mod n m h = ground (
  arith,
  suc-mod m n,
  mod_self n,
  mod-lt m {m = n} (omega arith),
  λ (p : suc (m % n) < n). mod-eq_of_lt p,
)

module _ (n : ℕ) (k : Str) (t0 : Time) (gate_on : 1 < n) (bounded : n ≤ max_int) where
  steady_step :
      (rs : List Run) (r : Run)
      → IsSteady k t0 r
      → IsAt t0 (length rs % n) (lookup k (pending_after (pos n) rs))
      → IsAt t0 (next_count n (length rs % n)) (lookup k (pending_after (pos n) (r ∷ rs)))
        × (confirmed (pending_after (pos n) rs) (pos n) r.now k ≡ (length rs % n + 1 == n))
  steady_step rs r s i =
      let old = lookup k (pending_after (pos n) rs) in
      let lt = mod-lt (length rs) {m = n} (omega arith) in
      rw (lookup-pending_after (pos n) k rs r) (
        next_count-step n (length rs % n) t0 (has_key k r.items)
          (confirmed (pending_after (pos n) rs) (pos n) r.now k) (observe old r.now) gate_on
          s.present (unfold confirmed in refl)
          (observe_steady t0 (length rs % n) old r.now (omega arith) s.since s.within i) lt)

  pending_after-steady :
      (rs : List Run)
      → AllSteady k t0 rs
      → IsAt t0 (length rs % n) (lookup k (pending_after (pos n) rs))
  pending_after-steady [] h = unfold pending_after lookup in zero-mod n
  pending_after-steady (r ∷ rs) h =
      rw (← next_count-mod n (length rs) gate_on)
        ((steady_step rs r h.0 (pending_after-steady rs h.1)).0)

  -- For n from 2 to the largest int64: an alert that is in every run of a history, all within 24
  -- hours of t0, passes in exactly the runs whose number is a multiple of n.
  pub passed_at-steady :
      (rs : List Run) (r : Run)
      → AllSteady k t0 (r ∷ rs)
      → has_key k (passed_at (pos n) rs r) ≡ (suc (length rs) % n == 0)
  passed_at-steady rs r h = ground (
    arith,
    has_key-passed_at (pos n) k rs r,
    h.0.present,
    (steady_step rs r h.0 (pending_after-steady rs h.1)).1,
    next_count-mod n (length rs) gate_on,
  )

-- With n > 1, a key that passes in a run does not pass in the next one, whatever the next run
-- holds and whenever it is.
pub passed_at-next :
    (n : ℕ) (k : Str) (rs : List Run) (r r' : Run)
    → 1 < n
    → has_key k (passed_at (pos n) rs r) ≡ true
    → has_key k (passed_at (pos n) (r ∷ rs) r') ≡ false
unfolding confirmed observe
passed_at-next n k rs r r' h p = ground (
  arith,
  has_key-passed_at (pos n) k rs r,
  has_key-passed_at (pos n) k (r ∷ rs) r',
  lookup-pending_after (pos n) k rs r,
)
