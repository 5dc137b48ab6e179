-- ===== src/Examples/Gate.antt =====
-- The confirmation and the signature on short histories.
use weops_inspect.Prelude.{
  ℕ, ◌%◌, ◌≤◌, ◌<◌, ◌≡◌, refl, ◌↔◌, true, [], ◌∷◌, arith, ◌==◌, any, all, pos, Str, codes, str_eq,
  Dict, lookup, insert,
}
use weops_inspect.Notify.Alerts.{AlertItem}
use weops_inspect.Notify.Persistence.{
  PendingItem, observe, walk, visit, pending_key, sub_time, apply_persistence,
}
use weops_inspect.Notify.Persistence.Gate.{has_key, Gated, apply_persistence-Gated}
use weops_inspect.Notify.Persistence.Runs.{
  pending_after, IsSteady, passed_at, streak, passed_at-streak, passed_at-steady,
}
use weops_inspect.Notify.Signature.{signature, signature_key, normalize_field_for_signature}
use weops_inspect.Notify.Signature.Identity.{lacks_zero, has_signature_key, clean, signature-eq_iff}
use weops_inspect.Notify.Signature.Normalize.{
  is_vhost, is_queue, backlog, queue_field, signature_key-queue,
}
use weops_inspect.Examples.{item, cpu, cpu_key, run_at}

abbrev seen_once : Dict PendingItem
seen_once = (cpu_key, record { count = pos 1; first_seen = 5 }) ∷ []

apply_persistence-Gated_example :
    Gated seen_once
      (pos 2)
      7
      (cpu ∷ item (codes "disk") ∷ [])
      (apply_persistence (cpu ∷ item (codes "disk") ∷ []) seen_once (pos 2) 7)
apply_persistence-Gated_example =
    apply_persistence-Gated (cpu ∷ item (codes "disk") ∷ []) seen_once (pos 2) 7

passes_second : has_key cpu_key (passed_at (pos 2) (run_at 5 ∷ []) (run_at 7)) ≡ true
unfolding has_key passed_at any apply_persistence walk visit observe lookup pending_after insert
    str_eq pending_key sub_time
passes_second = refl

passed_at-streak_example : 2 ≤ streak cpu_key (run_at 7 ∷ run_at 5 ∷ [])
passed_at-streak_example =
    passed_at-streak 2 cpu_key (run_at 5 ∷ []) (run_at 7) (omega arith) passes_second

present_at : (t : ℕ) → has_key cpu_key (run_at t).items ≡ true
unfolding has_key any str_eq pending_key
present_at t = refl

run_at-IsSteady : (t : ℕ) → t < 86400000000000 → IsSteady cpu_key 0 (run_at t)
run_at-IsSteady t h = record { present = present_at t; since = omega arith; within = h }

passed_at-steady_example :
    has_key cpu_key (passed_at (pos 2) (run_at 7 ∷ run_at 5 ∷ []) (run_at 9)) ≡ (3 % 2 == 0)
passed_at-steady_example =
    passed_at-steady 2 cpu_key 0 (omega arith) (omega arith) (run_at 7 ∷ run_at 5 ∷ []) (run_at 9) (
      run_at-IsSteady 9 (omega arith),
      (run_at-IsSteady 7 (omega arith), (run_at-IsSteady 5 (omega arith), tt)),
    )

abbrev queue_item : Str → AlertItem
queue_item q = item (queue_field (codes "bk") q backlog)

clean_cpu : clean (cpu ∷ []) ≡ true
unfolding clean all lacks_zero signature_key normalize_field_for_signature
clean_cpu = refl

signature-eq_iff_example :
    (signature (λ s. b'h' ∷ s) (cpu ∷ []) ≡ signature (λ s. b'h' ∷ s) (cpu ∷ []))
    ↔ ((k : Str) → has_signature_key k (cpu ∷ []) ≡ has_signature_key k (cpu ∷ []))
signature-eq_iff_example =
    signature-eq_iff (λ s. b'h' ∷ s) (cpu ∷ []) (cpu ∷ []) clean_cpu clean_cpu (λ t e. cc e)
      (λ e. refl)

queue_fits : is_queue (codes "q.1") ≡ true
unfolding is_queue all
queue_fits = refl

vhost_fits : is_vhost (codes "bk") ≡ true
unfolding is_vhost all
vhost_fits = refl

other_fits : is_queue (codes "other") ≡ true
unfolding is_queue all
other_fits = refl

signature_key-queue_example :
    signature_key (queue_item (codes "q.1")) ≡ signature_key (queue_item (codes "other"))
signature_key-queue_example =
    signature_key-queue (queue_item (codes "q.1")) (queue_item (codes "other")) (codes "bk")
      (codes "q.1") (codes "other") backlog refl vhost_fits queue_fits other_fits refl refl
