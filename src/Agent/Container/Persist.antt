-- ===== src/Agent/Container/Persist.antt =====
-- What survives a restart of the machine: detectStorageMode, loadConfigs, autoRestart and
-- NewContainerManager.
use aetheria.Prelude.{
  ℕ, Bool, true, false, Option, none, some, List, [], ◌∷◌, Bytes, codes, if◌then◌else◌, same, Exec,
}
use aetheria.Prelude.Int.{ℤ}
use aetheria.FilePath.{join_path}
use aetheria.Agent.Types.{Container, ContainerConfig, Error, created, running, stopped, panicked}
use aetheria.Agent.Os.{
  Os, Guest, DirEntry, FileStat, FileRead, present, absent, stat_failed, contents, no_file,
  read_failed,
}
use aetheria.Agent.Cgroup.{init_cgroup_hierarchy}
use aetheria.Agent.Container.State.{Manager, Agent}
use aetheria.Agent.Container.Create.{register, restart_always}
use aetheria.Agent.Container.Start.{start}

-- `err == nil`
abbrev exists : FileStat → Bool
exists (present _) = true
exists absent = false
exists stat_failed = false

abbrev pub restored : ContainerConfig → Bytes → Bytes → Container
restored cfg name rootfs = record {
  name = name;
  rootfs = rootfs;
  pid = 0;
  status = stopped;
  image = cfg.image;
  network = cfg.network;
  ip = [];
  ports = cfg.ports;
  resources = cfg.resources;
  restart = cfg.restart;
  env = cfg.env;
  volumes = cfg.volumes;
  cmd = none;
}

-- A container whose root file system is missing is skipped.
abbrev pub enter_unless : FileStat → Container → Manager → Manager
enter_unless absent c m = m
enter_unless (present _) c m = register c m
enter_unless stat_failed c m = register c m

module _ (os : Os) where
  open os use {World}

  abbrev data_disk : Bytes
  data_disk = codes "/dev/vdb"

  -- Whether the data disk is in use, and the world after the attempt.
  unfoldable pub mount_disk : World → Bool × World
  mount_disk w =
      let w₁ = (os.mkdir_all (codes "/mnt/data") w).1 in
      let (mounted, w₂) =
        os.mount
          (record {
            source = data_disk;
            target = codes "/mnt/data";
            fs_type = codes "ext4";
            options = [];
          })
          w₁ in
      if exists (os.stat data_disk w)
      then (if mounted
          then (true, w₂)
          else (exists (os.stat (codes "/mnt/data/containers") w₂), w₂))
      else (false, w)

  -- The storage mode is "disk" or "rootfs"; the packages' variables have no other value before.
  unfoldable pub detect_storage_mode : Guest World → Guest World
  detect_storage_mode g =
      let (disk, w) = mount_disk g.world in
      let dir = if disk then codes "/mnt/data/containers" else codes "/var/aetheria/containers" in
      let images = codes "/mnt/host/aetheria-data/images" in
      record g {
        world = (os.mkdir_all images (os.mkdir_all dir w).1).1;
        containers_dir = dir;
        images_dir = images;
      }

  -- `decode` is json.Unmarshal into a configuration.
  module _ (decode : Bytes → Option ContainerConfig) where
    -- The directory's name is the container's, whatever the file says.
    unfoldable pub restore : Guest World → Bytes → ContainerConfig → Manager → Manager
    restore g name cfg m =
        let rootfs = join_path (g.containers_dir ∷ name ∷ codes "rootfs" ∷ []) in
        enter_unless (os.stat rootfs g.world) (restored cfg name rootfs) m

    unfoldable pub load_decoded : Guest World → Bytes → Option ContainerConfig → Manager → Manager
    load_decoded g name none m = m
    load_decoded g name (some cfg) m = restore g name cfg m

    abbrev pub load_file : Guest World → Bytes → FileRead → Manager → Manager
    load_file g name (contents text) m = load_decoded g name (decode text) m
    load_file g name no_file m = m
    load_file g name read_failed m = m

    unfoldable pub load_entry : Guest World → DirEntry → Manager → Manager
    load_entry g e m =
        let path = join_path (g.containers_dir ∷ e.name ∷ codes "config.json" ∷ []) in
        if e.is_dir then load_file g e.name (os.read_file path g.world) m else m

    unfoldable pub load_entries : Guest World → List DirEntry → Manager → Manager
    load_entries g [] m = m
    load_entries g (e ∷ es) m = load_entries g es (load_entry g e m)

    abbrev pub load_found : Guest World → Option (List DirEntry) → Manager → Manager
    load_found g none m = m
    load_found g (some es) m = load_entries g es m

    unfoldable pub load_configs : Guest World → Manager → Manager
    load_configs g = load_found g (os.read_dir g.containers_dir g.world)

abbrev is_stopped : Container → Bool
is_stopped c = elim c.status [ created ↦ false | running ↦ false | stopped ↦ true ]

-- The names of the stopped containers that are always restarted.
unfoldable pub to_restart : (ℕ → Container) → List (Bytes × ℕ) → List Bytes
to_restart heap [] = []
to_restart heap ((name, p) ∷ d) =
    let rest = to_restart heap d in
    if same (heap p).restart restart_always
    then (if is_stopped (heap p) then name ∷ rest else rest)
    else rest

module _ (os : Os) (quota_of : ℕ → ℤ)
    (prepare : Bytes → Bytes → Exec (Guest os.World) Error Bytes) where
  open os use {World}

  -- A start that fails is logged; `false` is where a panic of one ended the agent.
  unfoldable pub start_all : List Bytes → Agent World → Bool × Agent World
  start_all [] a = (true, a)
  start_all (name ∷ names) a =
      let (r, a') = start os quota_of prepare name a in
      let rest = start_all names a' in if panicked r then (false, a') else rest

  unfoldable pub auto_restart : Agent World → Bool × Agent World
  auto_restart a = start_all (to_restart a.manager.heap a.manager.containers) a

  -- NewContainerManager, over an empty map
  unfoldable pub new_manager : (Bytes → Option ContainerConfig) → Agent World → Bool × Agent World
  new_manager decode a =
      let g₁ = detect_storage_mode os a.guest in
      let g : Guest World = record g₁ { world = init_cgroup_hierarchy os g₁.world } in
      auto_restart (record a { guest = g; manager = load_configs os decode g a.manager })
