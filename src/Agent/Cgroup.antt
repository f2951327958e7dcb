-- ===== src/Agent/Cgroup.antt =====
-- cmd/aetheria-agent/cgroup.go: resource limits as writes to control files.
use aetheria.Prelude.{
  ℕ, ◌+◌, ◌%◌, ◌^◌, Bool, true, false, ◌&&◌, List, [], ◌∷◌, ◌++◌, Bytes, codes, if◌then◌else◌, ltb,
  leb, ◌==◌, Exec, ok, err, pure, ◌>>◌,
}
use aetheria.Prelude.Int.{ℤ, pos, negsuc, is_zero, is_positive}
use aetheria.Text.Decimal.{decimal}
use aetheria.Text.{split, trim_space}
use aetheria.FilePath.{join_path}
use aetheria.Agent.Types.{
  Error, ResourceLimits, create_cgroup, set_memory_max, set_cpu_max, set_pids_max, move_pid,
}
use aetheria.Agent.Os.{Os, Guest, contents, no_file, read_failed}

abbrev pub cgroup_base : Bytes
cgroup_base = codes "/sys/fs/cgroup/aetheria"

-- A float64 is its bits: it is zero if all but the sign are 0, and above zero if the sign is 0 and
-- it is neither zero nor a NaN.
abbrev pub float_is_zero : ℕ → Bool
float_is_zero bits = bits % 2 ^ 63 == 0

abbrev pub float_is_positive : ℕ → Bool
float_is_positive bits = ltb 0 bits && leb bits 0x7ff0_0000_0000_0000

-- strconv.FormatInt
unfoldable pub format_int : ℤ → Bytes
format_int (pos n) = decimal n
format_int (negsuc n) = b'-' ∷ decimal (n + 1)

-- ResourceLimits.IsEmpty
unfoldable pub is_empty : ResourceLimits → Bool
is_empty r = is_zero r.memory_max && float_is_zero r.cpu_max && is_zero r.pids_max

-- `if quota < 1000 { quota = 1000 }`
abbrev pub at_least_1ms : ℤ → ℤ
at_least_1ms (pos n) = if ltb n 1000 then pos 1000 else pos n
at_least_1ms (negsuc n) = pos 1000

-- `quota_of` is the conversion `int64(CPUMax * 100000)` of the processor's floating point.
module _ (os : Os) (quota_of : ℕ → ℤ) where
  open os use {World}

  unfoldable pub write_cgroup_file : Error → Bytes → Bytes → Bytes → Exec (Guest World) Error Unit
  write_cgroup_file e path file value g =
      let (done, w) = os.write_file (join_path (path ∷ file ∷ [])) value g.world in
      (if done then ok tt else err e, record g { world = w })

  unfoldable pub make_cgroup : Bytes → Exec (Guest World) Error Unit
  make_cgroup path g =
      let (done, w) = os.mkdir_all path g.world in
      (if done then ok tt else err create_cgroup, record g { world = w })

  -- A limit is written if the test passes.
  unfoldable pub write_if : Bool → Error → Bytes → Bytes → Bytes → Exec (Guest World) Error Unit
  write_if true e path file value = write_cgroup_file e path file value
  write_if false e path file value = pure tt

  unfoldable pub cpu_max_text : ℕ → Bytes
  cpu_max_text bits = format_int (at_least_1ms (quota_of bits)) ++ codes " 100000"

  unfoldable pub setup_cgroup : Bytes → ℕ → ResourceLimits → Exec (Guest World) Error Unit
  setup_cgroup name pid limits = do
    let path = join_path (cgroup_base ∷ name ∷ [])
    make_cgroup path
    write_if (is_positive limits.memory_max) set_memory_max path (codes "memory.max")
        (format_int limits.memory_max)
    write_if (float_is_positive limits.cpu_max) set_cpu_max path (codes "cpu.max")
        (cpu_max_text limits.cpu_max)
    write_if (is_positive limits.pids_max) set_pids_max path (codes "pids.max")
        (format_int limits.pids_max)
    write_cgroup_file move_pid path (codes "cgroup.procs") (decimal pid)

module _ (os : Os) where
  open os use {World}

  -- `cgroup.procs` reads as blank, or cannot be read
  unfoldable pub is_vacant : Bytes → World → Bool
  is_vacant path w = elim (os.read_file (join_path (path ∷ codes "cgroup.procs" ∷ [])) w) [
    | contents b ↦ elim (trim_space b) [ [] ↦ true | c ∷ s ↦ false ]
    | no_file ↦ true
    | read_failed ↦ true
  ]

  unfoldable pub cleanup_cgroup : Bytes → Guest World → Guest World
  unfolding is_vacant
  cleanup_cgroup name g =
      let path = join_path (cgroup_base ∷ name ∷ []) in
      if is_vacant path g.world then record g { world = (os.remove path g.world).1 } else g

  -- Writes to `cgroup.subtree_control`; a failure is logged.
  unfoldable pub enable_controllers : Bytes → World → World
  enable_controllers parent w =
      let file = join_path (parent ∷ codes "cgroup.subtree_control" ∷ []) in
      let w₁ = (os.write_file file (codes "+cpu") w).1 in
      let w₂ = (os.write_file file (codes "+memory") w₁).1 in
      (os.write_file file (codes "+pids") w₂).1

  -- Writing a pid to `cgroup.procs` moves the process; empty lines are skipped.
  unfoldable pub move_processes : Bytes → List Bytes → World → World
  move_processes file [] w = w
  move_processes file ([] ∷ lines) w = move_processes file lines w
  move_processes file ((c ∷ line) ∷ lines) w =
      move_processes file lines (os.write_file file (c ∷ line) w).1

  unfoldable pub init_cgroup_hierarchy : World → World
  unfolding enable_controllers move_processes
  init_cgroup_hierarchy w =
      let scope = codes "/sys/fs/cgroup/init.scope" in
      let w₁ = (os.mkdir_all scope w).1 in
      elim (os.read_file (codes "/sys/fs/cgroup/cgroup.procs") w₁) [
        | no_file ↦ w₁
        | read_failed ↦ w₁
        | contents b ↦
            let w₂ =
              move_processes (join_path (scope ∷ codes "cgroup.procs" ∷ []))
                (split (trim_space b) b'\n') w₁ in
            let w₃ = enable_controllers (codes "/sys/fs/cgroup") w₂ in
            enable_controllers cgroup_base (os.mkdir_all cgroup_base w₃).1
      ]
