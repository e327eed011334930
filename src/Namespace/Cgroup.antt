-- ===== src/Namespace/Cgroup.antt =====
-- src/cgroup.rs: the control group of a capsule.
use zeptocapsule.Common.{
  ℕ, zero, suc, ◌+◌, ◌-◌, ◌*◌, ◌/◌, ◌%◌, ◌^◌, Bool, false, Option, none, some, List, [], ◌∷◌, ◌++◌,
  ltb, ◌==◌, if◌then◌else◌,
}
use zeptocapsule.Common.Result.{Result, ok, err}
use zeptocapsule.Common.Program.{ret, ask, lift, ◌>>=◌, ◌>>◌}
use zeptocapsule.Text.{Str, codes, decimal, trim, str_eq, parse_uint}
use zeptocapsule.Text.Path.{join}
use zeptocapsule.Text.Words.{lines, skip_space, word}
use zeptocapsule.Capsule.{
  F64, nan, negative, infinite, finite, ResourceLimits, ResourceViolation, memory, max_pids,
}
use zeptocapsule.Namespace.System.{M, create_dir_all, write_file, remove_dir, sleep_ms}

abbrev pub cgroup_root : Str
cgroup_root = codes "/sys/fs/cgroup/zeptocapsule"

pub record Cgroup : Type 0 where
  pub path : Str

unfoldable pub create : Str → M Cgroup
create job_id = do
  let path = join cgroup_root job_id
  made ← ask (create_dir_all path)
  lift made
  ret (record { path = path })

abbrev pub dummy : Cgroup
dummy = record { path = codes "/sys/fs/cgroup/zeptocapsule/_dummy_nonexistent" }

unfoldable pub add_pid : Cgroup → ℕ → M (Unit {0})
add_pid group pid =
    ask (write_file (join group.path (codes "cgroup.procs")) (decimal pid ++ codes "\n")) >>= lift

abbrev pub max_u64 : ℕ
max_u64 = 2 ^ 64 - 1

-- the number of binary digits; the fuel bounds it
unfoldable pub bit_length : ℕ → ℕ → ℕ
bit_length zero n = 0
bit_length (suc fuel) n = if n == 0 then 0 else suc (bit_length fuel (n / 2))

-- `p` rounded to 53 significant bits, to the nearest and a tie to even
unfoldable pub round53 : ℕ → ℕ
unfolding bit_length
round53 p =
    let drop = bit_length p p - 53 in
    let unit = 2 ^ drop in
    let q = p / unit in
    let r = p % unit in
    if ltb unit (2 * r)
    then (q + 1) * unit
    else if 2 * r == unit
    then (q + q % 2) * unit
    else q * unit

-- `(cpu * 100_000.0) as u64`: the product is rounded, the conversion saturates
unfoldable pub quota_of : F64 → ℕ
unfolding round53
quota_of nan = 0
quota_of negative = 0
quota_of infinite = max_u64
quota_of (finite n s) = let q = round53 (n * 100000) / 2 ^ s in if ltb max_u64 q then max_u64 else q

-- a limit that is set is written; the first error ends the writing
unfoldable pub write_limit : Cgroup → Str → Option Str → M (Unit {0})
write_limit group file none = ret tt
write_limit group file (some text) = do
  written ← ask (write_file (join group.path file) text)
  lift written

-- `mib * 1024 * 1024` of a u64 wraps in a release build
abbrev pub memory_text : Option ℕ → Option Str
memory_text none = none
memory_text (some mib) = some (decimal (mib * 1024 * 1024 % 2 ^ 64) ++ codes "\n")

abbrev pub cpu_text : Option F64 → Option Str
cpu_text none = none
cpu_text (some cpu) = some (decimal (quota_of cpu) ++ codes " 100000\n")

abbrev pub pids_text : Option ℕ → Option Str
pids_text none = none
pids_text (some pids) = some (decimal pids ++ codes "\n")

unfoldable pub apply_limits : Cgroup → ResourceLimits → M (Unit {0})
unfolding write_limit
apply_limits group limits = do
  write_limit group (codes "memory.max") (memory_text limits.memory_mib)
  write_limit group (codes "cpu.max") (cpu_text limits.cpu_quota)
  write_limit group (codes "pids.max") (pids_text limits.max_pids)

-- `attempts` times, until the directory is removed
unfoldable pub destroy : ℕ → Cgroup → M (Unit {0})
destroy zero group = ret tt
destroy (suc attempts) group = do
  removed ← ask (remove_dir group.path)
  elim removed [ ok t ↦ ret tt | err x ↦ ask (sleep_ms 100) >> destroy attempts group ]

-- the words that a line begins with: `none` where there is no second one
unfoldable pub two_words : Str → Option (Str × Str)
unfolding word skip_space
two_words line =
    let (name, rest) = word (skip_space line) in
    let (value, more) = word (skip_space rest) in
    if str_eq value [] then none else some (name, value)

unfoldable pub value_of : Str → Option (Str × Str) → Option ℕ
value_of key none = none
value_of key (some (name, value)) = if str_eq name key then parse_uint max_u64 value else none

-- `find_map` over the lines
unfoldable pub find_counter : Str → List Str → Option ℕ
unfolding value_of two_words
find_counter key [] = none
find_counter key (line ∷ lines) = elim (value_of key (two_words line)) [
  | some n ↦ some n
  | none ↦ find_counter key lines
]

-- a text that could not be read has no counter
unfoldable pub counter : Str → Result Str Str → Option ℕ
unfolding find_counter lines
counter key (err x) = none
counter key (ok contents) = find_counter key (lines contents)

abbrev pub positive : Option ℕ → Bool
positive none = false
positive (some n) = ltb 0 n

-- what `memory.events` and `pids.events` say
unfoldable pub detect_violation :
    (memory_events pids_events : Result Str Str) → Option ResourceViolation
unfolding counter
detect_violation memory_events pids_events =
    if positive (counter (codes "oom_kill") memory_events)
    then some memory
    else if positive (counter (codes "max") pids_events)
    then some max_pids
    else none

abbrev mib_of : Option ℕ → Option ℕ
mib_of none = none
mib_of (some n) = some (n / (1024 * 1024))

-- of the contents of `memory.peak`
unfoldable pub peak_memory_mib : Result Str Str → Option ℕ
peak_memory_mib (err x) = none
peak_memory_mib (ok contents) = mib_of (parse_uint max_u64 (trim contents))
