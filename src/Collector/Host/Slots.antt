-- ===== src/Collector/Host/Slots.antt =====
-- collector/host.go: the goroutines of CollectAllHosts do not disturb each other.
use weops_inspect.Prelude.{
  ℕ, suc, ◌+◌, ◌<◌, ◌≡◌, refl, ap, ◌∙◌, ◌⊎◌, inl, inr, Bool, true, false, ◌&&◌, ◌||◌, List, [], ◌∷◌,
  ◌++◌, map, arith, ◌==◌, if◌then◌else◌, ==_iff, Bool-cases, length, filter, is_empty, Str, codes,
  FloatOps,
}
use weops_inspect.Model.{HostMetrics}
use weops_inspect.Prelude.Strings.{trim_space}
use weops_inspect.Collector.Probe.{Failure}
use weops_inspect.Collector.Host.{failed_host, parse_host_output, nth_or}
use weops_inspect.Collector.Host.Schedule.{
  HostSlots, run_all, sampled, slots_from, sample_host, read_host, run_phases, collect_all_hosts,
  host_report,
}

unfoldable pub member : ℕ → List ℕ → Bool
member j [] = false
member j (i ∷ is) = (i == j) || member j is

member-filter : (p : ℕ → Bool) (j : ℕ) (is : List ℕ) → member j (filter p is) ≡ (member j is && p j)
unfolding member filter
member-filter p j [] = refl
member-filter p j (i ∷ is) = elim (Bool-cases (i == j)) [
  | inl h ↦ let e = (==_iff i j).0 h in ground (arith, member-filter p j is, h, e, ap p e)
  | inr h ↦ ground (arith, member-filter p j is, h)
]

-- A slot after a phase, where a goroutine changes its own slot only, and a second time not at all.
module _ {ℓ} {S V : Type ℓ} (step : ℕ → S → S) (view : ℕ → S → V) (update : ℕ → V → V)
    (own : (i j : ℕ) (s : S)
      → view j (step i s) ≡ (if i == j then update j (view j s) else view j s))
    (once : (j : ℕ) (v : V) → update j (update j v) ≡ update j v) where
  run_all-slot :
      (j : ℕ) (order : List ℕ) (s : S)
      → view j (run_all step order s) ≡ (if member j order then update j (view j s) else view j s)
  unfolding run_all member
  run_all-slot j [] s = refl
  run_all-slot j (i ∷ order) s =
      run_all-slot j order (step i s) ∙ ground (arith, own i j s, once j (view j s))

module _ {F : Type 0} ⦃fl : FloatOps F⦄ where
  abbrev slot : ℕ → HostSlots F → HostMetrics F × Str
  slot j s = (s.results j, s.samples j)

  abbrev sampled_slot : Str → Str ⊎ Failure → HostMetrics F × Str → HostMetrics F × Str
  sampled_slot ip (inl out) (m, sample) = (m, trim_space out)
  sampled_slot ip (inr e) (m, sample) =
      (record m { ip = ip; error = codes "SSH error: " ++ e.text }, sample)

  sampled-slot :
      (i j : ℕ) (ips : ℕ → Str) (first : Str → Str ⊎ Failure) (s : HostSlots F)
      → slot j (sampled i (ips i) (first (ips i)) s)
        ≡ (if i == j then sampled_slot (ips j) (first (ips j)) (slot j s) else slot j s)
  sampled-slot i j ips first s = elim (Bool-cases (i == j)) [
    | inl h ↦ rw ((==_iff i j).0 h) (same j (ips j) (first (ips j)))
    | inr h ↦ other i (ips i) (first (ips i)) h ∙ rw h refl
  ]
    where
      same :
          (k : ℕ) (ip : Str) (o : Str ⊎ Failure)
          → slot k (sampled k ip o s) ≡ (if k == k then sampled_slot ip o (slot k s) else slot k s)
      same k ip (inl out) = unfold sampled in rw ((==_iff k k).1 refl) refl
      same k ip (inr e) = unfold sampled in rw ((==_iff k k).1 refl) refl

      other :
          (k : ℕ) (ip : Str) (o : Str ⊎ Failure)
          → (k == j) ≡ false
          → slot j (sampled k ip o s) ≡ slot j s
      other k ip (inl out) h = unfold sampled in rw h refl
      other k ip (inr e) h = unfold sampled in rw h refl

  sampled_slot-once :
      (ip : Str) (o : Str ⊎ Failure) (v : HostMetrics F × Str)
      → sampled_slot ip o (sampled_slot ip o v) ≡ sampled_slot ip o v
  sampled_slot-once ip (inl out) v = refl
  sampled_slot-once ip (inr e) v = refl

-- Every slot below n has its goroutine.
unfoldable pub Covers : ℕ → List ℕ → Type 0
Covers n order = (j : ℕ) → j < n → member j order ≡ true

abbrev ip_of : List Str → ℕ → Str
ip_of hosts j = nth_or [] j hosts

module _ {F : Type 0} ⦃fl : FloatOps F⦄ (first : Str → Str ⊎ Failure) (second : Str → Str)
    (mount_paths : Str) (include_nfs : Bool) (hosts : List Str) where
  abbrev read_slot : ℕ → HostMetrics F × Str → HostMetrics F × Str
  read_slot j (m, sample) = (
    parse_host_output (ip_of hosts j) sample (second (ip_of hosts j)) mount_paths include_nfs,
    sample,
  )

  read_host-slot :
      (i j : ℕ) (s : HostSlots F)
      → slot j (read_host first second mount_paths include_nfs hosts i s)
        ≡ (if i == j then read_slot j (slot j s) else slot j s)
  unfolding read_host
  read_host-slot i j s = elim (Bool-cases (i == j)) [
    | inl h ↦ rw ((==_iff i j).0 h, (==_iff j j).1 refl) refl
    | inr h ↦ rw h refl
  ]

  abbrev fresh : HostSlots F
  fresh = record { results = λ _. failed_host [] []; samples = λ _. [] }

  -- The slot of a host after both phases.
  sampled_once :
      (order : List ℕ) (j : ℕ)
      → member j order ≡ true
      → slot j (run_all (sample_host first second mount_paths include_nfs hosts) order fresh)
        ≡ sampled_slot (ip_of hosts j) (first (ip_of hosts j)) (slot j fresh)
  unfolding sample_host
  sampled_once order j h =
      run_all-slot _ slot (λ k. sampled_slot (ip_of hosts k) (first (ip_of hosts k)))
        (λ i k s. sampled-slot i k (ip_of hosts) first s)
        (λ k v. sampled_slot-once (ip_of hosts k) (first (ip_of hosts k)) v) j order fresh
      ∙ rw h refl

  abbrev chosen : Str → HostMetrics F × Str → HostMetrics F
  chosen ip (m, sample) =
      if is_empty m.error
      then parse_host_output ip sample (second ip) mount_paths include_nfs
      else m

  outcome :
      (ip : Str) (m : HostMetrics F) (sample : Str) (o : Str ⊎ Failure)
      → first ip ≡ o
      → (m, sample) ≡ sampled_slot ip o (failed_host [] [], [])
      → (if is_empty m.error
          then parse_host_output ip sample (second ip) mount_paths include_nfs
          else m)
        ≡ host_report first second mount_paths include_nfs ip
  unfolding host_report failed_host
  outcome ip m sample (inl out) f e = ap (chosen ip) e ∙ rw (host_report, f) refl
  outcome ip m sample (inr er) f e = ap (chosen ip) e ∙ rw (host_report, f) refl

  chosen-slot :
      (j : ℕ) (s : HostSlots F) (b : Bool)
      → b ≡ is_empty (s.results j).error
      → (if b then read_slot j (slot j s) else slot j s).0 ≡ chosen (ip_of hosts j) (slot j s)
  chosen-slot j s b e = elim (Bool-cases (is_empty (s.results j).error)) [
    | inl h ↦ rw (e, h) refl
    | inr h ↦ rw (e, h) refl
  ]

  phases-slot :
      (order1 order2 : List ℕ) (j : ℕ)
      → member j order1 ≡ true
      → member j order2 ≡ true
      → (run_phases first second mount_paths include_nfs hosts order1 order2 fresh).results j
        ≡ host_report first second mount_paths include_nfs (ip_of hosts j)
  unfolding run_phases
  phases-slot order1 order2 j h1 h2 =
      let after = run_all (sample_host first second mount_paths include_nfs hosts) order1 fresh in
      let p : ℕ → Bool = λ i. is_empty (after.results i).error in
      ap (λ v. v.0)
        (run_all-slot (read_host first second mount_paths include_nfs hosts) slot read_slot
          read_host-slot (λ k v. refl) j (filter p order2) after)
      ∙ chosen-slot j after (member j (filter p order2)) (member-filter p j order2 ∙ rw h2 refl)
      ∙ outcome (ip_of hosts j) (after.results j) (after.samples j) (first (ip_of hosts j)) refl
          (sampled_once order1 j h1)

  slots_from-map :
      (f : Str → HostMetrics F) (hs : List Str) (i : ℕ) (results : ℕ → HostMetrics F)
      → ((j : ℕ) → j < length hs → results (i + j) ≡ f (nth_or [] j hs))
      → slots_from i hs results ≡ map f hs
  unfolding slots_from
  slots_from-map f [] i results h = refl
  slots_from-map f (ip ∷ hs) i results h =
      ap (λ m. m ∷ slots_from (suc i) hs results) (ap results (omega arith) ∙ h 0 (omega arith))
      ∙ ap (λ ms. f ip ∷ ms)
          (slots_from-map f hs (suc i) results
            (λ j l. ap results (omega arith) ∙ h (suc j) (omega (arith, l))))

  -- CollectAllHosts, for every order in which the goroutines of its two phases end: where each host has
  -- its goroutine in both orders, the results are, host by host and in the order of the hosts, those of
  -- the host on its own. A host that cannot be reached first carries its address and the error only.
  pub collect_all_hosts-map :
      (order1 order2 : List ℕ)
      → Covers (length hosts) order1
      → Covers (length hosts) order2
      → collect_all_hosts {F = F} first second mount_paths include_nfs hosts order1 order2
        ≡ map (host_report first second mount_paths include_nfs) hosts
  unfolding collect_all_hosts Covers
  collect_all_hosts-map order1 order2 c1 c2 =
      let after =
        (run_phases first second mount_paths include_nfs hosts order1 order2 fresh).results in
      slots_from-map (host_report first second mount_paths include_nfs) hosts 0 after
        (λ j l. ap after (omega arith) ∙ phases-slot order1 order2 j (c1 j l) (c2 j l))
