-- ===== src/Agent/Container/Start.antt =====
-- ContainerManager.Start, reexecContainer, and the goroutine that waits for the process.
use Prim.Native.Nat.{bit_or}
use aetheria.Prelude.{
  ℕ, ◌+◌, Bool, false, ◌||◌, Option, none, some, List, [], ◌∷◌, ◌++◌, Bytes, codes, if◌then◌else◌,
  same, ◌==◌, Result, ok, err, Exec, ◌>>=◌, ◌>>◌, lookup,
}
use aetheria.Prelude.Int.{ℤ}
use aetheria.Text.Decimal.{decimal}
use aetheria.FilePath.{join_path}
use aetheria.Agent.Types.{
  Container, VolumeMount, running, stopped, NetworkMode, net_bridge, net_none, Error,
  already_running, modified, remount, wrap, start_failed,
}
use aetheria.Agent.Os.{Os, Guest, Command, present, absent, stat_failed}
use aetheria.Agent.Network.{setup_bridge_network, teardown_bridge_network}
use aetheria.Agent.Cgroup.{is_empty, setup_cgroup, cleanup_cgroup}
use aetheria.Agent.Container.State.{Manager, Watcher, Agent, set_at, is_running, on_guest, find}

abbrev pub container_init_arg : Bytes
container_init_arg = codes "__aetheria_container_init__"

-- CLONE_NEWPID, CLONE_NEWNS, CLONE_NEWUTS, CLONE_NEWIPC
abbrev pub base_clone_flags : ℕ
base_clone_flags = bit_or (bit_or (bit_or 0x2000_0000 0x0002_0000) 0x0400_0000) 0x0800_0000

abbrev pub clone_newnet : ℕ
clone_newnet = 0x4000_0000

-- Bridge and none modes have a network namespace of their own.
abbrev pub has_own_net : NetworkMode → Bool
has_own_net network = same network net_bridge || same network net_none

-- reexecContainer
unfoldable pub reexec_container : Bytes → Bytes → NetworkMode → Command
reexec_container rootfs hostname network = record {
  argv = codes "/proc/self/exe" ∷ container_init_arg ∷ rootfs ∷ hostname ∷ [];
  env = [];
  clone_flags =
      if has_own_net network then bit_or base_clone_flags clone_newnet else base_clone_flags;
  log_file = none;
}

-- `__AETHERIA_VOL_<i>=<host>:<container>:<ro|rw>`
unfoldable pub volume_variable : ℕ → VolumeMount → Bytes
volume_variable i v =
    codes "__AETHERIA_VOL_"
    ++ decimal i
    ++ b'='
      ∷ (v.host_path
          ++ b':' ∷ (v.container_path ++ b':' ∷ (if v.read_only then codes "ro" else codes "rw")))

unfoldable pub volume_variables : ℕ → List VolumeMount → List Bytes
volume_variables i [] = []
volume_variables i (v ∷ vs) = volume_variable i v ∷ volume_variables (i + 1) vs

-- What Start keeps when it gives up the lock: the pointer, the image and the root file system.
pub record Pending : Type 0 where
  pub ptr : ℕ
  pub name : Bytes
  pub image : Bytes
  pub rootfs : Bytes

-- Does the map hold the pointer `p` for the name?
abbrev pub holds_ptr : Bytes → ℕ → Manager → Bool
holds_ptr name p m = elim (lookup name m.containers) [ none ↦ false | some q ↦ q == p ]

abbrev pub remove_watcher : ℕ → List Watcher → List Watcher
remove_watcher p [] = []
remove_watcher p (w ∷ ws) = if w.ptr == p then ws else w ∷ remove_watcher p ws

abbrev wrap_remount : Bytes → Result Error Bytes → Result Error (Unit {0})
wrap_remount name (ok r) = ok tt
wrap_remount name (err e) = wrap (remount name) (err e)

abbrev ip_or : Bytes → Result Error Bytes → Bytes
ip_or old (ok ip) = ip
ip_or old (err e) = old

module _ {W : Type 0} where
  -- Under the lock: the container is there and does not run.
  unfoldable pub start_begin : Bytes → Exec (Agent W) Error Pending
  unfolding find
  start_begin name = do
    p ← find name
    λ a.
        let c = a.manager.heap p in
        if is_running c
        then (err (already_running name), a)
        else (ok (record { ptr = p; name = name; image = c.image; rootfs = c.rootfs }), a)

module _ (os : Os) where
  open os use {World}

  unfoldable pub make_dirs : Bytes → List Bytes → World → World
  make_dirs rootfs [] w = w
  make_dirs rootfs (d ∷ ds) w = make_dirs rootfs ds (os.mkdir_all (join_path (rootfs ∷ d ∷ [])) w).1

  unfoldable pub container_command : Container → Bytes → Bool → Bytes → World → Command
  container_command c name logged log_path w = record (reexec_container c.rootfs name c.network) {
    env = os.environ w ++ c.env ++ volume_variables 0 c.volumes;
    log_file = if logged then some log_path else none;
  }

  unfoldable pub connect : Container → Bytes → ℕ → Guest World → Bytes × Guest World
  connect c name pid g =
      let (r, g') = setup_bridge_network os name pid g in
      if same c.network net_bridge then (ip_or c.ip r, g') else (c.ip, g)

  unfoldable pub clean_up : Container → Bytes → Guest World → Guest World
  clean_up c name g =
      let g₁ = if same c.network net_bridge then teardown_bridge_network os name g else g in
      if is_empty c.resources then g₁ else cleanup_cgroup os name g₁

  -- The goroutine behind `cmd.Wait()`: the process has ended.
  unfoldable pub process_exited : Watcher → Agent World → Agent World
  process_exited t a =
      let c = a.manager.heap t.ptr in
      record a {
        guest = clean_up c t.name a.guest;
        manager = record a.manager {
          heap =
              set_at a.manager.heap t.ptr
                (record c { status = stopped; pid = 0; cmd = none; ip = [] });
        };
        waiters = remove_watcher t.ptr a.waiters;
      }

module _ (os : Os) (quota_of : ℕ → ℤ) where
  open os use {World}

  -- A failure of the limits or of the network is logged, and the container runs on without them.
  unfoldable pub apply_limits : Container → Bytes → ℕ → Guest World → Guest World
  apply_limits c name pid g =
      if is_empty c.resources then g else (setup_cgroup os quota_of name pid c.resources g).1

  -- The container's process has started.
  unfoldable pub launched : ℕ → Bytes → ℕ → Agent World → Agent World
  launched p name pid a =
      let c = a.manager.heap p in
      let (ip, g) = connect os c name pid (apply_limits c name pid a.guest) in
      record a {
        guest = g;
        manager = record a.manager {
          heap =
              set_at a.manager.heap p
                (record c { pid = pid; status = running; cmd = some pid; ip = ip });
        };
        waiters = (record { ptr = p; name = name; pid = pid }) ∷ a.waiters;
      }

  -- cmd.Start
  unfoldable pub spawned : ℕ → Bytes → Option ℕ → Exec (Agent World) Error Unit
  spawned p name none a = (err start_failed, a)
  spawned p name (some pid) a = (ok tt, launched p name pid a)

  unfoldable pub launch : ℕ → Bytes → Exec (Agent World) Error Unit
  launch p name a =
      let c = a.manager.heap p in
      let w₁ =
        make_dirs os c.rootfs
          (codes "proc" ∷ codes "sys" ∷ codes "dev" ∷ codes "tmp" ∷ codes "etc" ∷ codes "root" ∷ [])
          a.guest.world in
      let log_path = join_path (a.guest.containers_dir ∷ name ∷ codes "container.log" ∷ []) in
      let (logged, w₂) = os.open_append log_path w₁ in
      let (process, w₃) = os.start (container_command os c name logged log_path w₂) w₂ in
      let a' : Agent World = record a { guest = record a.guest { world = w₃ } } in
      spawned p name process a'

  -- Under the lock again: the container may have been removed or started meanwhile.
  unfoldable pub start_commit : Pending → Exec (Agent World) Error Unit
  start_commit s a =
      if holds_ptr s.name s.ptr a.manager
      then (if is_running (a.manager.heap s.ptr)
          then (err (already_running s.name), a)
          else launch s.ptr s.name a)
      else (err (modified s.name), a)

module _ (os : Os) (prepare : Bytes → Bytes → Exec (Guest os.World) Error Bytes) where
  open os use {World}

  -- Outside the lock: the root file system is mounted again if it has no `bin`.
  unfoldable pub start_prepare : Pending → Exec (Guest World) Error Unit
  start_prepare s g =
      let (r, g') = prepare s.name s.image g in
      if same s.image []
      then (ok tt, g)
      else elim (os.stat (join_path (s.rootfs ∷ codes "bin" ∷ [])) g.world) [
        | absent ↦ (wrap_remount s.name r, g')
        | present _ ↦ (ok tt, g)
        | stat_failed ↦ (ok tt, g)
      ]

module _ (os : Os) (quota_of : ℕ → ℤ)
    (prepare : Bytes → Bytes → Exec (Guest os.World) Error Bytes) where
  open os use {World}

  unfoldable pub start : Bytes → Exec (Agent World) Error Unit
  start name = do
    s ← start_begin name
    on_guest (start_prepare os prepare s)
    start_commit os quota_of s
