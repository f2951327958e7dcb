-- ===== src/Examples/Volumes.antt =====
-- The volumes of a container.
use aetheria.Prelude.{◌≡◌, refl, true, false, none, List, [], ◌∷◌, arith, codes}
use aetheria.Prelude.Int.{pos}
use aetheria.Agent.Types.{Container, VolumeMount, created}
use aetheria.Agent.Container.{container_command}
use aetheria.Agent.Init.{Kernel, MountCall, mount_volumes, volume_prefix}
use aetheria.Text.{has_prefix}
use aetheria.Agent.Init.Volumes.{mount_each, mount_volumes-container_command}
use aetheria.Examples.Machine.{calm}

-- The state holds the mounts that were made, the last one first.
abbrev mounts : Kernel (List MountCall)
mounts = record {
  environ = λ w. [];
  set_hostname = λ name w. w;
  mkdir_all = λ path w. (true, w);
  mount = λ m w. (true, m ∷ w);
  pivot_root = λ new old w. (true, w);
  chroot = λ path w. (true, w);
  chdir = λ path w. (true, w);
  unmount = λ path w. (true, w);
  remove_all = λ path w. w;
}

abbrev src : VolumeMount
src = record { host_path = codes "/s"; container_path = codes "/t"; read_only = true }

abbrev tmp : VolumeMount
tmp = record { host_path = codes "/u"; container_path = codes "/v"; read_only = false }

abbrev db : Container
db = record {
  name = codes "db";
  rootfs = codes "/r";
  pid = 0;
  status = created;
  image = [];
  network = codes "host";
  ip = [];
  ports = [];
  resources = record { memory_max = pos 0; cpu_max = 0; pids_max = pos 0 };
  restart = codes "no";
  env = codes "A=1" ∷ [];
  volumes = src ∷ tmp ∷ [];
  cmd = none;
}

no_volume : has_prefix (codes "A=1") volume_prefix ≡ false
unfolding has_prefix
no_volume = refl

mount_volumes-container_command_example :
    mount_volumes mounts (codes "/r") (container_command calm db (codes "db") false [] 100).env []
    ≡ mount_each mounts (codes "/r") db.volumes []
mount_volumes-container_command_example =
    mount_volumes-container_command calm mounts db (codes "db") [] (codes "/r") false 100 []
      (
        (
          ((λ e. omega arith), ((λ e. omega arith), tt)),
          ((λ e. omega arith), ((λ e. omega arith), tt)),
        ),
        (
          (
            ((λ e. omega arith), ((λ e. omega arith), tt)),
            ((λ e. omega arith), ((λ e. omega arith), tt)),
          ),
          tt,
        ),
      )
      tt (no_volume, tt)
