-- ===== src/Collector/Service/Modules.antt =====
-- collector/service.go: what CollectAllServices has for a module at the end.
use weops_inspect.Prelude.{
  ◌≡◌, refl, sym, ap, ◌∙◌, inl, inr, Bool, true, false, ◌&&◌, Option, none, some, List, [], ◌∷◌,
  ◌++◌, map, arith, if◌then◌else◌, Bool-cases, filter, Str, str_eq, str_eq_iff, Dict, lookup,
  insert, lookup-insert, get_or,
}
use mathlib.Core.List.{append_assoc, Perm, Permᴰ}
use mathlib.Core.List.Permᴰ
use mathlib.Core.Logic.{∥∥₁_map}
use mathlib.Core.Path.{subst}
use weops_inspect.Model.{ServiceStatus}
use weops_inspect.Config.Types.{Addresses, ModuleHosts}
use weops_inspect.Config.Hosts.{get_module_hosts, role_ips}
use weops_inspect.Collector.Probe.{Failure}
use weops_inspect.Collector.Registry.{SubModule, module_registry}
use weops_inspect.Collector.ServiceCommand.{service_command}
use weops_inspect.Collector.Service.{
  service_status_of, ServiceJob, jobs_with, module_jobs, jobs_of, service_jobs, add_status, run_job,
  run_jobs,
}

abbrev of_module : Str → ServiceJob → Bool
of_module key j = str_eq j.module_key key

-- Permutations, through a choice and a map.
keep_if : {B : Type 0} → Bool → B → List B → List B
keep_if true b bs = b ∷ bs
keep_if false b bs = bs

picked : {A B : Type 0} → (A → Bool) → (A → B) → List A → List B
picked p f [] = []
picked p f (x ∷ xs) = keep_if (p x) (f x) (picked p f xs)

picked_lem :
    {A B : Type 0} (p : A → Bool) (f : A → B) (xs : List A) → picked p f xs ≡ map f (filter p xs)
unfolding picked keep_if filter
picked_lem p f [] = refl
picked_lem p f (x ∷ xs) = elim (Bool-cases (p x)) [
  | inl h ↦ rw h (ap (λ l. f x ∷ l) (picked_lem p f xs))
  | inr h ↦ rw h (picked_lem p f xs)
]

keep_if-Permᴰ :
    {B : Type 0} (b : Bool) {x y : B} {xs ys : List B}
    → x ≡ y
    → Permᴰ xs ys
    → Permᴰ (keep_if b x xs) (keep_if b y ys)
unfolding keep_if
keep_if-Permᴰ true e d = Permᴰ.cons e d
keep_if-Permᴰ false e d = d

keep_if-swap :
    {B : Type 0} (b c : Bool) (x y : B) (xs : List B)
    → Permᴰ (keep_if b x (keep_if c y xs)) (keep_if c y (keep_if b x xs))
unfolding keep_if
keep_if-swap true true x y xs = Permᴰ.swap refl refl
keep_if-swap true false x y xs = Permᴰ.refl _
keep_if-swap false c x y xs = Permᴰ.refl _

picked-Permᴰ :
    {A B : Type 0} (p : A → Bool) (f : A → B) {xs ys : List A}
    → Permᴰ xs ys
    → Permᴰ (picked p f xs) (picked p f ys)
unfolding picked
picked-Permᴰ p f Permᴰ.nil = Permᴰ.nil
picked-Permᴰ p f (Permᴰ.cons {a} {b} {l₁} {l₂} e d) =
    subst (λ c. Permᴰ (keep_if (p a) (f a) (picked p f l₁)) (keep_if (p c) (f c) (picked p f l₂))) e
      (keep_if-Permᴰ (p a) refl (picked-Permᴰ p f d))
picked-Permᴰ p f (Permᴰ.swap {a} {b} {a'} {b'} {l} g h) =
    subst
      (λ z.
        Permᴰ (keep_if (p a) (f a) (keep_if (p b) (f b) (picked p f l)))
          (keep_if (p a') (f a') (keep_if (p z) (f z) (picked p f l))))
      g
      (subst
        (λ z.
          Permᴰ (keep_if (p a) (f a) (keep_if (p b) (f b) (picked p f l)))
            (keep_if (p z) (f z) (keep_if (p a) (f a) (picked p f l))))
        h (keep_if-swap (p a) (p b) (f a) (f b) (picked p f l)))
picked-Permᴰ p f (Permᴰ.trans d e) = Permᴰ.trans (picked-Permᴰ p f d) (picked-Permᴰ p f e)

picked-append :
    {A B : Type 0} (p : A → Bool) (f : A → B) (xs ys : List A)
    → picked p f (xs ++ ys) ≡ picked p f xs ++ picked p f ys
unfolding picked keep_if
picked-append p f [] ys = refl
picked-append p f (x ∷ xs) ys = elim (Bool-cases (p x)) [
  | inl h ↦ rw h (ap (λ l. f x ∷ l) (picked-append p f xs ys))
  | inr h ↦ rw h (picked-append p f xs ys)
]

map-append : {A B : Type 0} (f : A → B) (xs ys : List A) → map f (xs ++ ys) ≡ map f xs ++ map f ys
map-append f [] ys = refl
map-append f (x ∷ xs) ys = ap (λ l. f x ∷ l) (map-append f xs ys)

-- The hosts that GetModuleHosts lists for a module.
unfoldable pub hosts_of : Str → List ModuleHosts → List Str
hosts_of key [] = []
hosts_of key (m ∷ ms) = (if str_eq m.module_name key then m.ips else []) ++ hosts_of key ms

-- The services of a module.
unfoldable pub subs_of : Str → List SubModule
unfolding lookup module_registry
subs_of key = get_or [] (lookup key module_registry)

has_entry : Option (List SubModule) → Bool
has_entry none = false
has_entry (some subs) = true

are_registered : List ModuleHosts → Bool
are_registered [] = true
are_registered (m ∷ ms) = has_entry (lookup m.module_name module_registry) && are_registered ms

modules-are_registered : (a : Addresses) → are_registered (get_module_hosts a) ≡ true
unfolding are_registered has_entry get_module_hosts module_registry lookup str_eq role_ips
modules-are_registered a = refl

module _ (run : Str → Str → Str × Option Failure) where
  -- What the map holds for a module before more statuses come.
  abbrev pub joined : Option (List ServiceStatus) → List ServiceStatus → Option (List ServiceStatus)
  joined before [] = before
  joined before (s ∷ ss) = some (get_or [] before ++ (s ∷ ss))

  joined-cons :
      (before : Option (List ServiceStatus)) (s : ServiceStatus) (ss : List ServiceStatus)
      → joined (some (get_or [] before ++ s ∷ [])) ss ≡ joined before (s ∷ ss)
  joined-cons before s [] = refl
  joined-cons before s (r ∷ rs) = ap some (append_assoc (get_or [] before) (s ∷ []) (r ∷ rs))

  run_jobs-added :
      (key : Str) (js : List ServiceJob) (results : Dict (List ServiceStatus))
      → lookup key (run_jobs run js results)
        ≡ joined (lookup key results) (map (run_job run) (filter (of_module key) js))
  unfolding run_jobs add_status filter
  run_jobs-added key [] results = refl
  run_jobs-added key (j ∷ js) results =
      let status = run_job run j in
      let before = get_or [] (lookup j.module_key results) ++ status ∷ [] in
      run_jobs-added key js (insert j.module_key before results)
      ∙ ap (λ o. joined o (map (run_job run) (filter (of_module key) js)))
          (lookup-insert j.module_key key before results)
      ∙ elim (Bool-cases (str_eq j.module_key key)) [
        | inl h ↦
            let same = (str_eq_iff j.module_key key).0 h in
            rw h (
              ap
                (λ k.
                  joined (some (get_or [] (lookup k results) ++ status ∷ []))
                    (map (run_job run) (filter (of_module key) js)))
                same
              ∙ joined-cons (lookup key results) status
                  (map (run_job run) (filter (of_module key) js)))
        | inr h ↦ rw h refl
      ]

  -- The statuses of a module, in the order of its goroutines.
  run_jobs-lookup :
      (key : Str) (js : List ServiceJob)
      → lookup key (run_jobs run js [])
        ≡ joined none (map (run_job run) (filter (of_module key) js))
  run_jobs-lookup key js =
      run_jobs-added key js []
      ∙ ap (λ o. joined o (map (run_job run) (filter (of_module key) js))) (unfold lookup in refl)

  -- What collectServiceOnHost has for a host of a module.
  unfoldable pub status_on : Str → Str → ServiceStatus
  unfolding service_status_of service_command subs_of
  status_on key ip =
      service_status_of key ip (subs_of key) (run ip (service_command key ip (subs_of key)))

  job_at : ModuleHosts → List SubModule → Str → ServiceJob
  job_at m subs ip = record { module_key = m.module_name; host = ip; subs = subs }

  picked_own :
      (key : Str) (m : ModuleHosts) (subs : List SubModule) (ips : List Str)
      → str_eq m.module_name key ≡ true
      → subs_of key ≡ subs
      → picked (of_module key) (run_job run) (map (job_at m subs) ips) ≡ map (status_on key) ips
  unfolding picked keep_if job_at
  picked_own key m subs [] h e = refl
  picked_own key m subs (ip ∷ ips) h e = rw h (
      ap (λ l. run_job run (job_at m subs ip) ∷ l) (picked_own key m subs ips h e)
      ∙ ap (λ s. s ∷ map (status_on key) ips)
          (unfold run_job status_on in
            ap (λ k. service_status_of k ip subs (run ip (service_command k ip subs)))
              ((str_eq_iff m.module_name key).0 h)
            ∙ ap (λ ss. service_status_of key ip ss (run ip (service_command key ip ss))) (sym e)))

  picked_other :
      (key : Str) (m : ModuleHosts) (subs : List SubModule) (ips : List Str)
      → str_eq m.module_name key ≡ false
      → picked (of_module key) (run_job run) (map (job_at m subs) ips) ≡ []
  unfolding picked keep_if job_at
  picked_other key m subs [] h = refl
  picked_other key m subs (ip ∷ ips) h = rw h (picked_other key m subs ips h)

  module_lem :
      (key : Str) (m : ModuleHosts) (o : Option (List SubModule))
      → lookup m.module_name module_registry ≡ o
      → has_entry o ≡ true
      → picked (of_module key) (run_job run) (jobs_with m o)
        ≡ map (status_on key) (if str_eq m.module_name key then m.ips else [])
  unfolding has_entry job_at
  module_lem key m none e h = cc
  module_lem key m (some subs) e h =
      unfold jobs_with in
      elim (Bool-cases (str_eq m.module_name key)) [
        | inl g ↦ rw g (
            picked_own key m subs m.ips g (
              unfold subs_of in
              ap (λ k. get_or [] (lookup k module_registry))
                (sym ((str_eq_iff m.module_name key).0 g))
              ∙ ap (get_or []) e))
        | inr g ↦ rw g (picked_other key m subs m.ips g)
      ]

  picked-jobs_of :
      (key : Str) (ms : List ModuleHosts)
      → are_registered ms ≡ true
      → picked (of_module key) (run_job run) (jobs_of ms) ≡ map (status_on key) (hosts_of key ms)
  unfolding jobs_of module_jobs hosts_of picked are_registered
  picked-jobs_of key [] h = refl
  picked-jobs_of key (m ∷ ms) h =
      let own : has_entry (lookup m.module_name module_registry) ≡ true = ground (arith, h) in
      let others : are_registered ms ≡ true = ground (arith, h) in
      let ips = if str_eq m.module_name key then m.ips else [] in
      picked-append (of_module key) (run_job run)
        (jobs_with m (lookup m.module_name module_registry)) (jobs_of ms)
      ∙ ap (λ l. l ++ picked (of_module key) (run_job run) (jobs_of ms))
          (module_lem key m (lookup m.module_name module_registry) refl own)
      ∙ ap (λ l. map (status_on key) ips ++ l) (picked-jobs_of key ms others)
      ∙ sym (map-append (status_on key) ips (hosts_of key ms))

  joined_lem : (ss : List ServiceStatus) → get_or [] (joined none ss) ≡ ss
  joined_lem [] = refl
  joined_lem (s ∷ ss) = refl

  results_lem :
      (key : Str) (js : List ServiceJob)
      → get_or [] (lookup key (run_jobs run js [])) ≡ picked (of_module key) (run_job run) js
  results_lem key js =
      ap (get_or []) (run_jobs-lookup key js)
      ∙ joined_lem (map (run_job run) (filter (of_module key) js))
      ∙ sym (picked_lem (of_module key) (run_job run) js)

  -- CollectAllServices, for every order in which its goroutines take the mutex: for each module, the
  -- statuses that it has at the end are, in some order, exactly one for each host that GetModuleHosts
  -- lists for the module, each the result of collectServiceOnHost for that host and the services that
  -- ModuleRegistry has for the module.
  pub service_jobs-Perm :
      (a : Addresses) (js : List ServiceJob) (key : Str)
      → Perm js (service_jobs a)
      → Perm
          (get_or [] (lookup key (run_jobs run js [])))
          (map (status_on key) (hosts_of key (get_module_hosts a)))
  unfolding service_jobs
  service_jobs-Perm a js key order =
      subst (λ l. Perm l (map (status_on key) (hosts_of key (get_module_hosts a))))
        (sym (results_lem key js))
        (subst (λ l. Perm (picked (of_module key) (run_job run) js) l)
          (picked-jobs_of key (get_module_hosts a) (modules-are_registered a))
          (∥∥₁_map order (λ d. picked-Permᴰ (of_module key) (run_job run) d)))
