-- ===== src/Agent/Container/Create.antt =====
-- ContainerManager.Create and saveConfig.
use aetheria.Prelude.{
  ◌+◌, Bool, ◌||◌, none, some, [], ◌∷◌, Bytes, codes, if◌then◌else◌, same, Result, ok, err, Exec,
  ◌>>=◌, ◌>>◌, lookup, insert,
}
use aetheria.FilePath.{join_path, is_abs}
use aetheria.Agent.Types.{
  Container, ContainerConfig, ContainerCreateParams, created, net_bridge, Error, already_exists,
  relative_rootfs, missing_rootfs, bad_restart, prepare_rootfs, wrap,
}
use aetheria.Agent.Os.{Os, Guest, present, absent, stat_failed}
use aetheria.Agent.Container.State.{Manager, Agent, set_at, validate_container_name, lift, on_guest}

abbrev pub restart_no : Bytes
restart_no = codes "no"

abbrev pub restart_always : Bytes
restart_always = codes "always"

-- `if netMode == ""`, `if restart == ""`
abbrev pub or_default : Bytes → Bytes → Bytes
or_default s d = if same s [] then d else s

-- `restart != "no" && restart != "always"` is refused.
unfoldable pub is_policy : Bytes → Bool
is_policy restart = same restart restart_no || same restart restart_always

abbrev pub config_of : Container → ContainerConfig
config_of c = record {
  name = c.name;
  image = c.image;
  network = c.network;
  ports = c.ports;
  resources = c.resources;
  restart = c.restart;
  env = c.env;
  volumes = c.volumes;
}

abbrev pub new_container : ContainerCreateParams → Bytes → Bytes → Container
new_container p rootfs restart = record {
  name = p.name;
  rootfs = rootfs;
  pid = 0;
  status = created;
  image = p.image;
  network = or_default p.network net_bridge;
  ip = [];
  ports = p.ports;
  resources = p.resources;
  restart = restart;
  env = p.env;
  volumes = p.volumes;
  cmd = none;
}

-- A new pointer to `c`, under its name.
unfoldable pub register : Container → Manager → Manager
register c m = record {
  heap = set_at m.heap m.next c;
  next = m.next + 1;
  containers = insert c.name m.next m.containers;
}

abbrev wrap_prepare : Bytes → Result Error Bytes → Result Error Bytes
wrap_prepare image r = wrap (prepare_rootfs image) r

module _ {W : Type 0} where
  -- Under the lock: no container has the name yet.
  unfoldable pub check_new : Bytes → Exec (Agent W) Error Unit
  check_new name a = elim (lookup name a.manager.containers) [
    | none ↦ (ok tt, a)
    | some _ ↦ (err (already_exists name), a)
  ]

module _ (os : Os) where
  open os use {World}

  unfoldable pub check_rootfs : Bytes → Exec (Guest World) Error Unit
  check_rootfs rootfs g =
      if is_abs rootfs
      then elim (os.stat rootfs g.world) [
        | present _ ↦ (ok tt, g)
        | absent ↦ (err (missing_rootfs rootfs), g)
        | stat_failed ↦ (ok tt, g)
      ]
      else (err (relative_rootfs rootfs), g)

-- `encode` is json.MarshalIndent on a configuration.
module _ (os : Os) (encode : ContainerConfig → Bytes) where
  open os use {World}

  -- Written to a temporary file that is then renamed; a failure is logged.
  unfoldable pub save_config : Container → Guest World → Guest World
  save_config c g =
      let path = join_path (g.containers_dir ∷ c.name ∷ []) in
      let w₁ = (os.mkdir_all path g.world).1 in
      let temporary = join_path (path ∷ codes "config.json.tmp" ∷ []) in
      let final = join_path (path ∷ codes "config.json" ∷ []) in
      let (written, w₂) = os.write_file temporary (encode (config_of c)) w₁ in
      let (renamed, w₃) = os.rename temporary final w₂ in
      let w₄ = (os.remove temporary w₃).1 in
      if written
      then (if renamed then record g { world = w₃ } else record g { world = w₄ })
      else record g { world = w₂ }

  -- Under the lock again: the name is checked once more, and the container entered.
  unfoldable pub create_insert : ContainerCreateParams → Bytes → Exec (Agent World) Error Unit
  create_insert p rootfs a =
      let restart = or_default p.restart restart_no in
      let c = new_container p rootfs restart in
      let entered : Agent World = record a {
        guest = save_config c a.guest;
        manager = register c a.manager;
      } in
      elim (lookup p.name a.manager.containers) [
        | some _ ↦ (err (already_exists p.name), a)
        | none ↦ if is_policy restart then (ok tt, entered) else (err (bad_restart restart), a)
      ]

-- `prepare` is PrepareContainerRootfs.
module _ (os : Os) (prepare : Bytes → Bytes → Exec (Guest os.World) Error Bytes) where
  open os use {World}

  -- Outside the lock: the root file system, given, prepared from an image, or at its usual place.
  unfoldable pub choose_rootfs : ContainerCreateParams → Exec (Guest World) Error Bytes
  choose_rootfs p g =
      let (r, g') = prepare p.name p.image g in
      if same p.rootfs []
      then (if same p.image []
          then (ok (join_path (g.containers_dir ∷ p.name ∷ codes "rootfs" ∷ [])), g)
          else (wrap_prepare p.image r, g'))
      else (ok p.rootfs, g)

module _ (os : Os) (encode : ContainerConfig → Bytes)
    (prepare : Bytes → Bytes → Exec (Guest os.World) Error Bytes) where
  open os use {World}

  unfoldable pub create : ContainerCreateParams → Exec (Agent World) Error Unit
  create p = do
    lift (validate_container_name p.name)
    check_new p.name
    rootfs ← on_guest (choose_rootfs os prepare p)
    on_guest (check_rootfs os rootfs)
    create_insert os encode p rootfs
