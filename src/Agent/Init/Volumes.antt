-- ===== src/Agent/Init/Volumes.antt =====
-- The volumes of a container, from Start to its first process (container.go).
use aetheria.Prelude.{
  ℕ, ◌+◌, ◌≡◌, ◌≢◌, refl, Bool, true, false, Option, none, some, List, [], ◌∷◌, ◌++◌, arith, Bytes,
  codes, if◌then◌else◌, All, All-append, append_assoc, bytes_dec, ℕ_discrete, ◌∙◌, ap, sym,
}
use aetheria.FilePath.{join_path}
use aetheria.Text.{has_prefix, has_prefix-append, cut-append, split_n, Lacks}
use aetheria.Text.Decimal.{IsDigit-Lacks, decimal, decimal-IsDigit}
use aetheria.Agent.Types.{VolumeMount, Container}
use aetheria.Agent.Os.{Os}
use aetheria.Agent.Container.{volume_variable, volume_variables, container_command}
use aetheria.Agent.Init.{
  Kernel, MountCall, bind_flags, read_only_flags, remount, volume_prefix, value_of, of_parts,
  read_volume, mount_volume, mount_read, mount_volumes,
}

-- No colon in either path, which the text of a variable could not carry
abbrev pub Plain : VolumeMount → Type 0
Plain v = Lacks b':' v.host_path × Lacks b':' v.container_path

abbrev text_after : VolumeMount → Bytes
text_after v =
    v.host_path
    ++ b':' ∷ (v.container_path ++ b':' ∷ (if v.read_only then codes "ro" else codes "rw"))

parts-read_only :
    (host inside : Bytes) (read_only : Bool)
    → Lacks b':' host
    → Lacks b':' inside
    → of_parts (
        split_n
          (text_after (record { host_path = host; container_path = inside; read_only = read_only }))
          b':'
          3)
      ≡ some (record { host_path = host; container_path = inside; read_only = read_only })
unfolding split_n bytes_dec ℕ_discrete
parts-read_only host inside true h i = ground (
  arith,
  cut-append host (inside ++ b':' ∷ codes "ro") b':' h,
  cut-append inside (codes "ro") b':' i,
)
parts-read_only host inside false h i = ground (
  arith,
  cut-append host (inside ++ b':' ∷ codes "rw") b':' h,
  cut-append inside (codes "rw") b':' i,
)

volume_prefix-Lacks : Lacks b'=' volume_prefix
volume_prefix-Lacks = (
  (λ e. omega arith),
  (
    (λ e. omega arith),
    (
      (λ e. omega arith),
      (
        (λ e. omega arith),
        (
          (λ e. omega arith),
          (
            (λ e. omega arith),
            (
              (λ e. omega arith),
              (
                (λ e. omega arith),
                (
                  (λ e. omega arith),
                  (
                    (λ e. omega arith),
                    (
                      (λ e. omega arith),
                      (
                        (λ e. omega arith),
                        ((λ e. omega arith), ((λ e. omega arith), ((λ e. omega arith), tt))),
                      ),
                    ),
                  ),
                ),
              ),
            ),
          ),
        ),
      ),
    ),
  ),
)

value_of-variable : (i : ℕ) (v : VolumeMount) → value_of (volume_variable i v) ≡ text_after v
unfolding volume_variable
value_of-variable i v =
    let found = cut-append (volume_prefix ++ decimal i) (text_after v) b'=' (
      All-append (λ (c : ℕ). c ≢ b'=') volume_prefix (decimal i) volume_prefix-Lacks
        (IsDigit-Lacks b'=' (decimal i) refl (decimal-IsDigit i))) in
    ground (arith, found, append_assoc volume_prefix (decimal i) (b'=' ∷ text_after v))

read_volume-variable :
    (i : ℕ) (v : VolumeMount) → Plain v → read_volume (volume_variable i v) ≡ some v
unfolding read_volume volume_variable
read_volume-variable i v (host, inside) =
    let starts : has_prefix (volume_variable i v) volume_prefix ≡ true =
      has_prefix-append volume_prefix (decimal i ++ b'=' ∷ text_after v) in
    rw starts (
      ap (λ (s : Bytes). of_parts (split_n s b':' 3)) (value_of-variable i v)
      ∙ parts-read_only v.host_path v.container_path v.read_only host inside)

-- The mounts that a volume asks for: a recursive bind mount (MS_BIND | MS_REC) at its path below the root
-- file system, and for a read-only one that mount again, read-only (MS_BIND | MS_REMOUNT | MS_RDONLY)
abbrev pub asked_mounts : Bytes → VolumeMount → List MountCall
asked_mounts target v =
    record { source = v.host_path; target = target; fs_type = []; flags = 20480 }
    ∷ (if v.read_only
        then record { source = []; target = target; fs_type = []; flags = 4129 } ∷ []
        else [])

-- The mounts one after the other, up to the first one that fails
abbrev pub mount_in_turn : {W : Type 0} → Kernel W → List MountCall → W → W
mount_in_turn kernel [] w = w
mount_in_turn kernel (c ∷ cs) w =
    let (mounted, w₁) = kernel.mount c w in
    let rest = mount_in_turn kernel cs w₁ in if mounted then rest else w₁

-- The volumes in their order, each on a directory that is made for it
unfoldable pub mount_each : {W : Type 0} → Kernel W → Bytes → List VolumeMount → W → W
mount_each kernel rootfs [] w = w
mount_each kernel rootfs (v ∷ vs) w =
    let target = join_path (rootfs ∷ v.container_path ∷ []) in
    mount_each kernel rootfs vs
      (mount_in_turn kernel (asked_mounts target v) (kernel.mkdir_all target w).1)

last_mount :
    {W : Type 0} (kernel : Kernel W) (read_only : Bool) (c : MountCall) (w : W)
    → mount_in_turn kernel (if read_only then c ∷ [] else []) w
      ≡ (if read_only then (kernel.mount c w).1 else w)
last_mount kernel true c w = ground arith
last_mount kernel false c w = refl

remount_if :
    {W : Type 0} (kernel : Kernel W) (read_only : Bool) (path : Bytes) (w : W)
    → remount kernel read_only path w ≡ (
        if read_only
        then (kernel.mount
            (record { source = []; target = path; fs_type = []; flags = read_only_flags })
            w).1
        else w)
remount_if kernel true path w = refl
remount_if kernel false path w = refl

mount_volume-asked :
    {W : Type 0} (kernel : Kernel W) (rootfs : Bytes) (v : VolumeMount) (w : W)
    → let target = join_path (rootfs ∷ v.container_path ∷ []) in
      mount_volume kernel rootfs v w
      ≡ mount_in_turn kernel (asked_mounts target v) (kernel.mkdir_all target w).1
unfolding mount_volume
mount_volume-asked {W = W} kernel rootfs v w =
    let target = join_path (rootfs ∷ v.container_path ∷ []) in
    let bind : MountCall = record {
      source = v.host_path;
      target = target;
      fs_type = [];
      flags = bind_flags;
    } in
    let (mounted, w₂) = kernel.mount bind (kernel.mkdir_all target w).1 in
    ap (λ (x : W). if mounted then x else w₂)
      (remount_if kernel v.read_only target w₂ ∙ sym (last_mount kernel v.read_only _ w₂))

-- A variable that is no volume
abbrev pub IsOther : Bytes → Type 0
IsOther env = has_prefix env volume_prefix ≡ false

module _ {W : Type 0} (kernel : Kernel W) (rootfs : Bytes) where
  mount_volumes-variables :
      (i : ℕ) (vs : List VolumeMount) (w : W)
      → All Plain vs
      → mount_volumes kernel rootfs (volume_variables i vs) w ≡ mount_each kernel rootfs vs w
  unfolding mount_volumes volume_variables mount_each
  mount_volumes-variables i [] w plain = refl
  mount_volumes-variables i (v ∷ vs) w (here_plain, plain) =
      ap
        (λ (r : Option VolumeMount).
          mount_volumes kernel rootfs (volume_variables (i + 1) vs) (mount_read kernel rootfs r w))
        (read_volume-variable i v here_plain)
      ∙ mount_volumes-variables (i + 1) vs (mount_volume kernel rootfs v w) plain
      ∙ ap (mount_each kernel rootfs vs) (mount_volume-asked kernel rootfs v w)

  read_volume-IsOther : (env : Bytes) → IsOther env → read_volume env ≡ none
  unfolding read_volume
  read_volume-IsOther env h = rw h refl

  mount_volumes-append :
      (envs more : List Bytes) (w : W)
      → All IsOther envs
      → mount_volumes kernel rootfs (envs ++ more) w ≡ mount_volumes kernel rootfs more w
  unfolding mount_volumes
  mount_volumes-append [] more w others = refl
  mount_volumes-append (env ∷ envs) more w (other, others) =
      ap
        (λ (r : Option VolumeMount).
          mount_volumes kernel rootfs (envs ++ more) (mount_read kernel rootfs r w))
        (read_volume-IsOther env other)
      ∙ mount_volumes-append envs more w others

-- The first process of a container, in the environment that Start gives it, mounts exactly the
-- container's volumes, in their order: each by a recursive bind mount of its host path at its path below
-- the root file system, where a directory was made, and if this succeeds, a read-only one by a second,
-- read-only mount of the same place. No path of them may hold a colon, and no other variable may have the
-- name of a volume.
pub mount_volumes-container_command :
    (os : Os) {W : Type 0} (kernel : Kernel W) (c : Container) (name log_path rootfs : Bytes)
    (logged : Bool) (started : os.World) (w : W)
    → All Plain c.volumes
    → All IsOther (os.environ started)
    → All IsOther c.env
    → mount_volumes kernel rootfs (container_command os c name logged log_path started).env w
      ≡ mount_each kernel rootfs c.volumes w
unfolding container_command
mount_volumes-container_command os kernel c name log_path rootfs logged started w plain inherited
      given =
    mount_volumes-append kernel rootfs (os.environ started ++ c.env) (volume_variables 0 c.volumes)
      w (All-append IsOther (os.environ started) c.env inherited given)
    ∙ mount_volumes-variables kernel rootfs 0 c.volumes w plain
