-- ===== src/Collector/Host/Schedule.antt =====
-- collector/host.go: CollectAllHosts, whose goroutines write to the slots of one slice.
use weops_inspect.Prelude.{
  ℕ, suc, ◌⊎◌, inl, inr, Bool, List, [], ◌∷◌, ◌++◌, ◌==◌, if◌then◌else◌, filter, is_empty, Str,
  codes, FloatOps,
}
use weops_inspect.Prelude.Strings.{trim_space}
use weops_inspect.Model.{HostMetrics}
use weops_inspect.Collector.Probe.{Failure}
use weops_inspect.Collector.Host.{failed_host, parse_host_output, nth_or}

-- results and cpuStat1: one slot for each host.
pub record HostSlots (F : Type 0) : Type 0 where
  pub results : ℕ → HostMetrics F
  pub samples : ℕ → Str

-- s[i] = a
abbrev pub set_slot {ℓ} : {A : Type ℓ} → ℕ → A → (ℕ → A) → ℕ → A
set_slot i a s j = if i == j then a else s j

-- The goroutines of one phase, in the order in which they end. Each reads and writes its own slot only.
unfoldable pub run_all {ℓ} : {S : Type ℓ} → (ℕ → S → S) → List ℕ → S → S
run_all step [] s = s
run_all step (i ∷ order) s = run_all step order (step i s)

module _ {F : Type 0} ⦃fl : FloatOps F⦄ where
  -- What the first goroutine of a host does with the answer of client.Run.
  unfoldable pub sampled : ℕ → Str → Str ⊎ Failure → HostSlots F → HostSlots F
  unfolding trim_space
  sampled i ip (inl out) s = record s { samples = set_slot i (trim_space out) s.samples }
  sampled i ip (inr e) s = record s {
    results =
        set_slot i (record (s.results i) { ip = ip; error = codes "SSH error: " ++ e.text })
          s.results;
  }

  -- results[:n]
  unfoldable pub slots_from : ℕ → List Str → (ℕ → HostMetrics F) → List (HostMetrics F)
  slots_from i [] results = []
  slots_from i (_ ∷ hosts) results = results i ∷ slots_from (suc i) hosts results

module _ {F : Type 0} ⦃fl : FloatOps F⦄ (first : Str → Str ⊎ Failure) (second : Str → Str)
    (mount_paths : Str) (include_nfs : Bool) where
  -- What is expected of one host, on its own.
  unfoldable pub host_report : Str → HostMetrics F
  unfolding parse_host_output failed_host trim_space
  host_report ip = elim (first ip) [
    | inl out ↦ parse_host_output ip (trim_space out) (second ip) mount_paths include_nfs
    | inr e ↦ failed_host ip (codes "SSH error: " ++ e.text)
  ]

-- The first argument is the answer of client.Run to cpuStatCmd, the second the output of client.Run for
-- both commands, whose error is ignored.
module _ {F : Type 0} ⦃fl : FloatOps F⦄ (first : Str → Str ⊎ Failure) (second : Str → Str)
    (mount_paths : Str) (include_nfs : Bool) (hosts : List Str) where
  unfoldable pub sample_host : ℕ → HostSlots F → HostSlots F
  unfolding sampled
  sample_host i s = sampled i (nth_or [] i hosts) (first (nth_or [] i hosts)) s

  unfoldable pub read_host : ℕ → HostSlots F → HostSlots F
  unfolding parse_host_output
  read_host i s = record s {
    results =
        set_slot i
          (parse_host_output (nth_or [] i hosts) (s.samples i) (second (nth_or [] i hosts))
            mount_paths include_nfs)
          s.results;
  }

  -- Both phases: the second skips the hosts whose slot holds an error.
  unfoldable pub run_phases : List ℕ → List ℕ → HostSlots F → HostSlots F
  unfolding run_all sample_host read_host filter
  run_phases order1 order2 s =
      let after = run_all sample_host order1 s in
      run_all read_host (filter (λ i. is_empty (after.results i).error) order2) after

  -- CollectAllHosts
  unfoldable pub collect_all_hosts : List ℕ → List ℕ → List (HostMetrics F)
  unfolding run_phases slots_from failed_host
  collect_all_hosts order1 order2 =
      slots_from 0 hosts
        (run_phases order1 order2
          (record { results = λ _. failed_host [] []; samples = λ _. [] })).results
