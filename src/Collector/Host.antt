-- ===== src/Collector/Host.antt =====
-- collector/host.go: the metrics of a host, read from the output of its commands.
use weops_inspect.Prelude.{
  ℕ, zero, suc, ◌+◌, ◌-◌, ◌*◌, ◌/◌, ◌%◌, ◌^◌, ◌≤◌, ◌<◌, ◌≡◌, refl, sym, ap, ◌∙◌, ◌≢◌, ◌↔◌, ◌⊎◌, inl,
  inr, Bool, true, false, not, ◌&&◌, ◌||◌, Option, none, some, List, [], ◌∷◌, ◌++◌, map, arith, ltb,
  leb, ◌==◌, if◌then◌else◌, ltb→lt, lt→ltb, leb→le, ==_iff, tests, Bool-cases, Option-cases, length,
  length-append, filter, any, all, take, drop, replicate, is_empty, filter-true, count_if,
  length-filter, count_if-append, any-append, all-append, ℤ, pos, negsuc, pos_part, neg_part, sub_ℕ,
  ◌≤ℤ◌, ltb_ℤ, leb_ℤ, eqb_ℤ, succ_int, Str, codes, str_eq, str_eq_iff, str_eq_refl, str_eq_sym,
  str_lt, str_lt_irrefl, str_lt_trans, str_lt_total, Dict, lookup, insert, lookup-insert, get_or,
  FloatOps,
}
pub mod Schedule
pub mod Slots
use weops_inspect.Prelude.Strings.{
  has_prefix, index, trim_space, split_lines, fields, cut_char, cut_text,
}
use weops_inspect.Model.{DiskUsage, NetworkStats, HostMetrics}
use weops_inspect.Decimal.{atoi}
use weops_inspect.Collector.Probe.{Failure}
use weops_inspect.Collector.Sections.{parse_sections}
use weops_inspect.Collector.Disk.{parse_disk_usage, append_disk_warning}
use weops_inspect.Collector.Sockets.{
  leading_digits, extract_number, number_after, ss_line, ss_lines, no_network, parse_ss_output,
}

-- strconv.Atoi(strings.TrimSpace(s)), its error ignored
unfoldable pub atoi_trimmed : Str → ℤ
unfolding atoi trim_space
atoi_trimmed s = (atoi (trim_space s)).0

-- The value where the key is there, and else the zero value of the field.
abbrev pub section_or {ℓ} : {A : Type ℓ} → A → (Str → A) → Option Str → A
section_or d f none = d
section_or d f (some s) = f s

abbrev pub nth_or : Str → ℕ → List Str → Str
nth_or d n [] = d
nth_or d zero (x ∷ xs) = x
nth_or d (suc n) (x ∷ xs) = nth_or d n xs

-- strings.SplitN(s, "---", 3) with its three parts trimmed, where there are three.
unfoldable pub hardware : Str → Str × Str × Str
unfolding cut_text trim_space
hardware s = elim (cut_text (codes "---") s) [
  | none ↦ ([], [], [])
  | some (manufacturer, rest) ↦ elim (cut_text (codes "---") rest) [
    | none ↦ ([], [], [])
    | some (product, serial) ↦ (trim_space manufacturer, trim_space product, trim_space serial)
  ]
]

module _ {F : Type 0} ⦃fl : FloatOps F⦄ where
  -- strconv.ParseFloat, its error ignored
  unfoldable pub float_of : Str → F
  float_of s = (fl.parse_float s).0

  -- total, added up from the left
  unfoldable pub sum_from : F → List F → F
  sum_from total [] = total
  sum_from total (v ∷ vs) = sum_from (fl.plus total v) vs

  -- idle and total of a line of /proc/stat
  unfoldable pub cpu_times : List Str → F × F
  unfolding sum_from float_of
  cpu_times (_ ∷ user ∷ nice ∷ system ∷ idle ∷ others) =
      (float_of idle, sum_from fl.zero_float (map float_of (user ∷ nice ∷ system ∷ idle ∷ others)))
  cpu_times _ = (fl.zero_float, fl.zero_float)

  -- float64(int(x)) / 100
  unfoldable pub hundredths : F → F
  hundredths x = fl.over (fl.of_int (fl.to_int x)) (fl.of_int (pos 100))

  -- parseCPUUsage
  unfoldable pub parse_cpu_usage : Str → Str → F
  unfolding cpu_times fields hundredths
  parse_cpu_usage stat1 stat2 =
      let before = cpu_times (fields stat1) in
      let after = cpu_times (fields stat2) in
      let total = fl.minus after.1 before.1 in
      let idle = fl.minus after.0 before.0 in
      if fl.eq total fl.zero_float
      then fl.zero_float
      else hundredths (
          fl.times
            (fl.times (fl.minus (fl.of_int (pos 1)) (fl.over idle total)) (fl.of_int (pos 100)))
            (fl.of_int (pos 100)))

  -- The share of a line of free, in percent: total and used are its second and third words.
  unfoldable pub used_share : List Str → F → F
  unfolding float_of hundredths
  used_share words old =
      let total = float_of (nth_or [] 1 words) in
      let used = float_of (nth_or [] 2 words) in
      if fl.gt total fl.zero_float
      then hundredths (fl.times (fl.over used total) (fl.of_int (pos 10000)))
      else old

  unfoldable pub free_line : Str → F × F → F × F
  unfolding fields has_prefix used_share
  free_line line (mem, swap) =
      let words = fields line in
      if ltb (length words) 3 then (mem, swap) else (
        if has_prefix (codes "Mem:") line then used_share words mem else mem,
        if has_prefix (codes "Swap:") line then used_share words swap else swap,
      )

  unfoldable pub free_lines : F × F → List Str → F × F
  unfolding free_line
  free_lines shares [] = shares
  free_lines shares (line ∷ lines) = free_lines (free_line line shares) lines

  -- parseFree
  unfoldable pub parse_free : Str → F × F
  unfolding free_lines split_lines
  parse_free output = free_lines (fl.zero_float, fl.zero_float) (split_lines output)

  unfoldable pub load_average : Str → F × F × F
  unfolding fields float_of
  load_average s =
      let parts = fields s in
      if leb 3 (length parts)
      then (
        float_of (nth_or [] 0 parts),
        float_of (nth_or [] 1 parts),
        float_of (nth_or [] 2 parts),
      )
      else (fl.zero_float, fl.zero_float, fl.zero_float)

-- int(seconds / 86400)
unfoldable pub run_days_of : (F : Type 0) → ⦃fl : FloatOps F⦄ → Str → ℤ
unfolding fields float_of
run_days_of F ⦃fl⦄ s =
    let parts = fields s in
    if leb 1 (length parts)
    then fl.to_int (fl.over (float_of (nth_or [] 0 parts)) (fl.of_int (pos 86400)))
    else pos 0

module _ {F : Type 0} ⦃fl : FloatOps F⦄ where
  -- MemTotal and SwapTotal in MB
  unfoldable pub memory_line : F × F → Str → F × F
  unfolding fields has_prefix float_of
  memory_line (memory, swap) line =
      let words = fields line in
      let value = fl.over (float_of (nth_or [] 1 words)) (fl.of_int (pos 1024)) in
      if leb 2 (length words)
      then if has_prefix (codes "MemTotal:") line
        then (value, swap)
        else if has_prefix (codes "SwapTotal:") line
        then (memory, value)
        else (memory, swap)
      else (memory, swap)

  unfoldable pub memory_lines : F × F → List Str → F × F
  unfolding memory_line
  memory_lines totals [] = totals
  memory_lines totals (line ∷ lines) = memory_lines (memory_line totals line) lines

  unfoldable pub memory_totals : Str → F × F
  unfolding memory_lines split_lines
  memory_totals s = memory_lines (fl.zero_float, fl.zero_float) (split_lines s)

  -- The entries of a section of df, which is read only where it is not blank.
  unfoldable pub disk_section : Option Str → Str → Bool → Option (List (DiskUsage F) × List Str)
  unfolding parse_disk_usage trim_space
  disk_section none mount_paths include_nfs = none
  disk_section (some s) mount_paths include_nfs =
      if is_empty (trim_space s) then none else some (parse_disk_usage s mount_paths include_nfs)

  abbrev pub entries_of : Option (List (DiskUsage F) × List Str) → List (DiskUsage F)
  entries_of none = []
  entries_of (some (entries, seen)) = entries

  -- m.Error, which is empty before
  unfoldable pub disk_error : Str → Option (List (DiskUsage F) × List Str) → Str
  unfolding append_disk_warning
  disk_error mount_paths none = []
  disk_error mount_paths (some (entries, seen)) =
      if is_empty entries then append_disk_warning [] mount_paths seen else []

  -- A host of which only the address and the error are set.
  unfoldable pub failed_host : Str → Str → HostMetrics F
  failed_host ip error = record {
    ip = ip;
    cpu_usage = fl.zero_float;
    mem_usage = fl.zero_float;
    load_avg1 = fl.zero_float;
    load_avg5 = fl.zero_float;
    load_avg15 = fl.zero_float;
    swap_usage = fl.zero_float;
    disk_usage = [];
    inode_usage = [];
    max_open_files = pos 0;
    process_total = pos 0;
    ntpd = [];
    chronyd = [];
    selinux = [];
    firewalld = [];
    proxy = pos 0;
    iptables = [];
    network = no_network;
    run_days = pos 0;
    version = [];
    kernel = [];
    memory = fl.zero_float;
    swap = fl.zero_float;
    core = pos 0;
    manufacturer = [];
    product = [];
    serial = [];
    error = error;
  }

  -- The sections of the batch output, field by field.
  unfoldable pub host_of_sections : Str → F → Dict Str → Str → Bool → HostMetrics F
  unfolding lookup load_average parse_free disk_section disk_error atoi_trimmed trim_space
      parse_ss_output run_days_of memory_totals hardware
  host_of_sections ip cpu sections mount_paths include_nfs =
      let zeros : F × F = (fl.zero_float, fl.zero_float) in
      let no_load : F × F × F = (fl.zero_float, fl.zero_float, fl.zero_float) in
      let no_board : Str × Str × Str = ([], [], []) in
      let load = section_or no_load load_average (lookup (codes "LOADAVG") sections) in
      let shares = section_or zeros parse_free (lookup (codes "FREE") sections) in
      let disks = disk_section (lookup (codes "DF") sections) mount_paths include_nfs in
      let inodes = disk_section (lookup (codes "DFI") sections) mount_paths include_nfs in
      let totals = section_or zeros memory_totals (lookup (codes "MEMINFO") sections) in
      let board = section_or no_board hardware (lookup (codes "DMIDECODE") sections) in
      let number : Option Str → ℤ = section_or (pos 0) atoi_trimmed in
      let text : Option Str → Str = section_or [] trim_space in
      record {
        ip = ip;
        cpu_usage = cpu;
        mem_usage = shares.0;
        load_avg1 = load.0;
        load_avg5 = load.1;
        load_avg15 = load.2;
        swap_usage = shares.1;
        disk_usage = entries_of disks;
        inode_usage = entries_of inodes;
        max_open_files = number (lookup (codes "ULIMIT") sections);
        process_total = number (lookup (codes "PROCS") sections);
        ntpd = text (lookup (codes "NTPD") sections);
        chronyd = text (lookup (codes "CHRONYD") sections);
        selinux = text (lookup (codes "SELINUX") sections);
        firewalld = text (lookup (codes "FIREWALLD") sections);
        proxy = pos 0;
        iptables = text (lookup (codes "IPTABLES") sections);
        network = section_or no_network parse_ss_output (lookup (codes "SS") sections);
        run_days = section_or (pos 0) (run_days_of F) (lookup (codes "UPTIME") sections);
        version = text (lookup (codes "VERSION") sections);
        kernel = text (lookup (codes "KERNEL") sections);
        memory = totals.0;
        swap = totals.1;
        core = number (lookup (codes "CPUCOUNT") sections);
        manufacturer = board.0;
        product = board.1;
        serial = board.2;
        error = disk_error mount_paths disks;
      }

  -- parseHostOutput
  unfoldable pub parse_host_output : Str → Str → Str → Str → Bool → HostMetrics F
  unfolding failed_host host_of_sections parse_cpu_usage parse_sections cut_char trim_space
  parse_host_output ip cpu_stat1 output mount_paths include_nfs = elim (cut_char 10 output) [
    | none ↦ failed_host ip (codes "incomplete output")
    | some (first, batch) ↦
        host_of_sections ip (parse_cpu_usage cpu_stat1 (trim_space first)) (parse_sections batch)
          mount_paths include_nfs
  ]
