-- ===== src/Agent/Types.antt =====
-- The data of the agent: container.go, cgroup.go and main.go.
use aetheria.Prelude.{ℕ, Bool, true, false, Option, List, Bytes, codes, Result, ok, err}
use aetheria.Prelude.Int.{ℤ}

-- NetworkMode is a string type: a request may hold any text.
abbrev pub NetworkMode : Type 0
NetworkMode = Bytes

abbrev pub net_host : NetworkMode
net_host = codes "host"

abbrev pub net_bridge : NetworkMode
net_bridge = codes "bridge"

abbrev pub net_none : NetworkMode
net_none = codes "none"

pub record VolumeMount : Type 0 where
  pub host_path : Bytes
  pub container_path : Bytes
  pub read_only : Bool

-- The ports are uint16.
pub record PortMapping : Type 0 where
  pub host_port : ℕ
  pub container_port : ℕ
  pub protocol : Bytes

-- `cpu_max` is a float64, given by its IEEE 754 bits.
pub record ResourceLimits : Type 0 where
  pub memory_max : ℤ
  pub cpu_max : ℕ
  pub pids_max : ℤ

-- The texts that the program stores in `Container.Status`.
pub data Status : Type 0 where
  created running stopped : Status

-- `cmd` holds the process handle of a started container, `none` for nil.
pub record Container : Type 0 where
  pub name : Bytes
  pub rootfs : Bytes
  pub pid : ℕ
  pub status : Status
  pub image : Bytes
  pub network : NetworkMode
  pub ip : Bytes
  pub ports : List PortMapping
  pub resources : ResourceLimits
  pub restart : Bytes
  pub env : List Bytes
  pub volumes : List VolumeMount
  pub cmd : Option ℕ

-- What is saved to disk.
pub record ContainerConfig : Type 0 where
  pub name : Bytes
  pub image : Bytes
  pub network : NetworkMode
  pub ports : List PortMapping
  pub resources : ResourceLimits
  pub restart : Bytes
  pub env : List Bytes
  pub volumes : List VolumeMount

pub record ContainerCreateParams : Type 0 where
  pub name : Bytes
  pub rootfs : Bytes
  pub image : Bytes
  pub network : NetworkMode
  pub ports : List PortMapping
  pub resources : ResourceLimits
  pub restart : Bytes
  pub env : List Bytes
  pub volumes : List VolumeMount

pub record ContainerExecParams : Type 0 where
  pub name : Bytes
  pub cmd : Bytes
  pub args : List Bytes

pub record ExecResult : Type 0 where
  pub stdout : Bytes
  pub stderr : Bytes
  pub exit_code : ℤ

-- A shell in a container: `master` is the master side of its terminal, `process` the process of nsenter.
pub record ShellSession : Type 0 where
  pub container_name : Bytes
  pub pid : ℕ
  pub network : NetworkMode
  pub master : ℕ
  pub process : ℕ

-- One constructor for each error text of the agent, with the values that it prints; those that wrap
-- another error hold it.
pub data Error : Type 0 where
  empty_name long_name start_failed : Error
  bad_name already_exists not_found already_running not_running still_running : Bytes → Error
  modified relative_rootfs missing_rootfs bad_restart : Bytes → Error
  prepare_rootfs remount : Bytes → Error → Error
  process_gone : Bytes → ℕ → Error
  nsenter_failed exec_failed read_logs cmd_required : Error
  bridge_up create_veth attach_bridge veth_up move_veth : Error
  rename_veth set_ip eth_up default_route : Error
  create_cgroup set_memory_max set_cpu_max set_pids_max move_pid : Error
  pull_image : Bytes → Error → Error
  copy_rootfs : Error
  pull_oci : Bytes → Error → Error
  download create_temporary write_body rename_image extract : Error
  http_status : ℕ → Error
  walk_failed make_dir read_link make_link open_file create_file copy_file close_file : Error
  open_layer extract_layer_tar : Error
  probe_registry no_realm auth_request parse_token fetch_manifest read_manifest parse_manifest :
      Error
  parse_manifest_list fetch_by_digest fetch_blob download_blob rename_blob : Error
  registry_status auth_status manifest_status digest_status blob_status : ℕ → Error
  no_platform : List Bytes → Error
  authenticate manifest_error : Error → Error
  layer_failed layer_extract_failed : ℕ → Error → Error
  slice_out_of_range nil_pointer : Error
  open_ptmx unlock_pty pty_number start_process : Error
  open_slave : ℕ → Error
  open_pty_failed start_shell_failed : Error → Error
  no_ip : Bytes → NetworkMode → Error
  no_mapping : ℕ → Error
  dial_container dial_vsock write_header : Error
  invalid_params invalid_json : Error
  unknown_method unknown_image_method : Bytes → Error

-- The two that stand for a run-time panic: nothing in the agent recovers from one, so that it ends the
-- agent and is no error that a caller could return or wrap.
abbrev pub is_panic : Error → Bool
is_panic slice_out_of_range = true
is_panic nil_pointer = true
is_panic _ = false

abbrev pub panicked {ℓ} : {A : Type ℓ} → Result Error A → Bool
panicked (ok a) = false
panicked (err e) = is_panic e

-- fmt.Errorf around another error
abbrev pub wrap {ℓ} : {A : Type ℓ} → (Error → Error) → Result Error A → Result Error A
wrap f (ok a) = ok a
wrap f (err slice_out_of_range) = err slice_out_of_range
wrap f (err nil_pointer) = err nil_pointer
wrap f (err e) = err (f e)
