-- ===== src/Agent/Init.antt =====
-- The first process of a container (container.go): containerInit, setupContainerMounts,
-- mountContainerFS and pivotRoot.
pub mod Volumes
use aetheria.Prelude.{
  ℕ, ◌+◌, Bool, true, false, ◌||◌, Option, none, some, List, [], ◌∷◌, ◌++◌, Bytes, codes,
  if◌then◌else◌, same, Result, ok, err, Exec, pure, ◌>>=◌, ◌>>◌,
}
use aetheria.Text.{has_prefix, cut, split_n}
use aetheria.FilePath.{join_path}
use aetheria.Agent.Types.{VolumeMount}
use aetheria.Agent.Container.{container_init_arg}

-- The argument of mount(2)
pub record MountCall : Type 0 where
  pub source : Bytes
  pub target : Bytes
  pub fs_type : Bytes
  pub flags : ℕ

-- The system calls, with `err == nil`
pub record Kernel (W : Type 0) : Type 0 where
  pub environ : W → List Bytes
  pub set_hostname : Bytes → W → W
  pub mkdir_all : Bytes → W → Bool × W
  pub mount : MountCall → W → Bool × W
  pub pivot_root : Bytes → Bytes → W → Bool × W
  pub chroot : Bytes → W → Bool × W
  pub chdir : Bytes → W → Bool × W
  pub unmount : Bytes → W → Bool × W
  pub remove_all : Bytes → W → W

-- MS_BIND | MS_REC, MS_BIND | MS_REMOUNT | MS_RDONLY and MS_REC | MS_PRIVATE
abbrev pub bind_flags : ℕ
bind_flags = 4096 + 16384

abbrev pub read_only_flags : ℕ
read_only_flags = 4096 + 32 + 1

abbrev pub private_flags : ℕ
private_flags = 16384 + 262144

abbrev pub volume_prefix : Bytes
volume_prefix = codes "__AETHERIA_VOL_"

-- The text behind the first `=`, all of it if there is none
abbrev pub value_of : Bytes → Bytes
value_of env = elim (cut env b'=') [ none ↦ env | some (name, value) ↦ value ]

abbrev pub of_parts : List Bytes → Option VolumeMount
of_parts [] = none
of_parts (host ∷ []) = none
of_parts (host ∷ inside ∷ []) =
    some (record { host_path = host; container_path = inside; read_only = false })
of_parts (host ∷ inside ∷ mode ∷ rest) =
    some (record { host_path = host; container_path = inside; read_only = same mode (codes "ro") })

-- What containerInit reads from one variable of its environment
unfoldable pub read_volume : Bytes → Option VolumeMount
read_volume env =
    if has_prefix env volume_prefix then of_parts (split_n (value_of env) b':' 3) else none

module _ {W : Type 0} (kernel : Kernel W) where
  abbrev pub remount : Bool → Bytes → W → W
  remount true path w =
      (kernel.mount (record { source = []; target = path; fs_type = []; flags = read_only_flags })
        w).1
  remount false path w = w

  -- A bind mount below the root file system; it is made read-only by a second call, whose error is not
  -- looked at.
  unfoldable pub mount_volume : Bytes → VolumeMount → W → W
  mount_volume rootfs v w =
      let path = join_path (rootfs ∷ v.container_path ∷ []) in
      let w₁ = (kernel.mkdir_all path w).1 in
      let (mounted, w₂) =
        kernel.mount
          (record { source = v.host_path; target = path; fs_type = []; flags = bind_flags }) w₁ in
      if mounted then remount v.read_only path w₂ else w₂

  abbrev pub mount_read : Bytes → Option VolumeMount → W → W
  mount_read rootfs none w = w
  mount_read rootfs (some v) w = mount_volume rootfs v w

  -- The loop over the environment
  unfoldable pub mount_volumes : Bytes → List Bytes → W → W
  mount_volumes rootfs [] w = w
  mount_volumes rootfs (env ∷ envs) w =
      mount_volumes rootfs envs (mount_read rootfs (read_volume env) w)

  -- One file system of mountContainerFS
  unfoldable pub mount_fs : Bytes → Bytes → List Bytes → W → W
  mount_fs rootfs fs_type place w =
      let path = join_path (rootfs ∷ place) in
      (kernel.mount (record { source = fs_type; target = path; fs_type = fs_type; flags = 0 })
        (kernel.mkdir_all path w).1).1

  unfoldable pub mount_container_fs : Bytes → W → W
  mount_container_fs rootfs w =
      let w₁ = mount_fs rootfs (codes "proc") (codes "proc" ∷ []) w in
      let w₂ = mount_fs rootfs (codes "sysfs") (codes "sys" ∷ []) w₁ in
      let w₃ = mount_fs rootfs (codes "devtmpfs") (codes "dev" ∷ []) w₂ in
      let w₄ = mount_fs rootfs (codes "devpts") (codes "dev" ∷ codes "pts" ∷ []) w₃ in
      mount_fs rootfs (codes "tmpfs") (codes "tmp" ∷ []) w₄

  abbrev pub tried : (W → Bool × W) → Exec W (Unit {0}) Unit
  tried m w = let (done, w₁) = m w in (if done then ok tt else err tt, w₁)

  -- The mount point is removed with all that is in it, also where the unmounting failed.
  abbrev pub drop_old_root : Exec W (Unit {0}) Unit
  drop_old_root w =
      (ok tt, kernel.remove_all (codes "/.old_root") (kernel.unmount (codes "/.old_root") w).1)

  unfoldable pub pivot_root : Bytes → Exec W (Unit {0}) Unit
  pivot_root new_root =
      let old_root = join_path (new_root ∷ codes ".old_root" ∷ []) in
      tried (kernel.mkdir_all old_root)
      >> tried (kernel.pivot_root new_root old_root)
      >> tried (kernel.chdir (codes "/"))
      >> drop_old_root

  -- pivot_root, or else chroot; `false` is where the process ends by log.Fatalf.
  abbrev pub or_chroot : Bytes → Result (Unit {0}) (Unit {0}) × W → Bool × W
  or_chroot rootfs (ok u, w) = (true, w)
  or_chroot rootfs (err e, w) =
      let (done, w₁) = kernel.chroot rootfs w in
      if done then (true, (kernel.chdir (codes "/") w₁).1) else (false, w₁)

  unfoldable pub enter_root : Bytes → W → Bool × W
  enter_root rootfs w = or_chroot rootfs (pivot_root rootfs w)

  abbrev pub set_up : Bytes → Bytes → W → Bool × W
  set_up rootfs hostname w =
      let w₁ = kernel.set_hostname hostname w in
      let w₂ =
        (kernel.mount
          (record { source = []; target = codes "/"; fs_type = []; flags = private_flags }) w₁).1 in
      let w₃ = mount_container_fs rootfs w₂ in
      enter_root rootfs (mount_volumes rootfs (kernel.environ w₃) w₃)

  -- containerInit up to its wait for a signal: whether it gets there. The arguments are those of
  -- reexecContainer.
  unfoldable pub container_init : List Bytes → W → Bool × W
  container_init (program ∷ word ∷ rootfs ∷ hostname ∷ rest) w =
      if same word container_init_arg then set_up rootfs hostname w else (false, w)
  container_init [] w = (false, w)
  container_init (program ∷ []) w = (false, w)
  container_init (program ∷ word ∷ []) w = (false, w)
  container_init (program ∷ word ∷ rootfs ∷ []) w = (false, w)
