-- ===== src/Host/Options.antt =====
-- The command line of `aetheria create`.
pub mod Names
pub mod Ports
use aetheria.Prelude.{
  ℕ, ◌+◌, Bool, true, false, ◌||◌, Option, none, some, List, [], ◌∷◌, ◌++◌, Bytes, codes,
  if◌then◌else◌, same, take, drop, Result, ok, err, and_then,
}
use aetheria.Prelude.Int.{ℤ, pos}
use aetheria.Text.{has_prefix, trim_prefix, index, last_index}
use aetheria.Text.Scan.{scan_int64}
use aetheria.Agent.Types.{PortMapping, VolumeMount}
use aetheria.Host.Values.{CliError, parse_port_mapping, parse_memory_size, parse_volume_mount}

-- The variables of the loop; `cpu_max` is a float64, given by its IEEE 754 bits.
pub record CreateOptions : Type 0 where
  pub image : Bytes
  pub name : Bytes
  pub network : Bytes
  pub restart : Bytes
  pub ports : List PortMapping
  pub env : List Bytes
  pub volumes : List VolumeMount
  pub memory_max : ℤ
  pub cpu_max : ℕ
  pub pids_max : ℤ

abbrev pub after_slash : Bytes → Bytes
after_slash s = elim (last_index s b'/') [ none ↦ s | some i ↦ drop (i + 1) s ]

abbrev pub before_colon : Bytes → Bytes
before_colon s = elim (index s b':') [ none ↦ s | some i ↦ take i s ]

-- The container's name, from that of the image
unfoldable pub derive_name : Bytes → Bytes
derive_name image = before_colon (after_slash image)

abbrev pub default_options : Bytes → CreateOptions
default_options image = record {
  image = image;
  name = derive_name image;
  network = codes "bridge";
  restart = codes "no";
  ports = [];
  env = [];
  volumes = [];
  memory_max = pos 0;
  cpu_max = 0;
  pids_max = pos 0;
}

-- The options whose value is the next argument, if there is one.
unfoldable pub is_flag : Bytes → Bool
is_flag a = same a (codes "-p") || same a (codes "-e") || same a (codes "-v")

unfoldable pub add_port : CreateOptions → Bytes → Result CliError CreateOptions
add_port o v = and_then (parse_port_mapping v) (λ pm. ok (record o { ports = o.ports ++ pm ∷ [] }))

unfoldable pub add_env : CreateOptions → Bytes → Result CliError CreateOptions
add_env o v = ok (record o { env = o.env ++ v ∷ [] })

unfoldable pub add_volume : CreateOptions → Bytes → Result CliError CreateOptions
add_volume o v =
    and_then (parse_volume_mount v) (λ vm. ok (record o { volumes = o.volumes ++ vm ∷ [] }))

-- An argument that is no option
unfoldable pub positional : CreateOptions → Bytes → Result CliError CreateOptions
positional o a = if same o.name o.image then ok (record o { name = a }) else ok o

abbrev pub or_old {ℓ} : {A : Type ℓ} → Option A → A → A
or_old none old = old
or_old (some new) old = new

-- `scan_float` is fmt.Sscanf with "%f": a value that it cannot read leaves the variable.
module _ (scan_float : Bytes → Option ℕ) where
  -- One argument of the switch, its value attached to it
  unfoldable pub option : CreateOptions → Bytes → Result CliError CreateOptions
  option o a =
      if has_prefix a (codes "--net=")
      then ok (record o { network = trim_prefix a (codes "--net=") })
      else if has_prefix a (codes "-p")
      then add_port o (trim_prefix a (codes "-p"))
      else if has_prefix a (codes "--memory=")
      then ok (record o { memory_max = parse_memory_size (trim_prefix a (codes "--memory=")) })
      else if has_prefix a (codes "--cpus=")
      then ok
          (record o { cpu_max = or_old (scan_float (trim_prefix a (codes "--cpus="))) o.cpu_max })
      else if has_prefix a (codes "--pids=")
      then ok
          (record o { pids_max = or_old (scan_int64 (trim_prefix a (codes "--pids="))) o.pids_max })
      else if has_prefix a (codes "--restart=")
      then ok (record o { restart = trim_prefix a (codes "--restart=") })
      else if has_prefix a (codes "-e")
      then add_env o (trim_prefix a (codes "-e"))
      else if has_prefix a (codes "-v")
      then add_volume o (trim_prefix a (codes "-v"))
      else positional o a

  -- One argument of the switch, its value in the next argument
  unfoldable pub flag : CreateOptions → Bytes → Bytes → Result CliError CreateOptions
  flag o a v =
      if same a (codes "-p")
      then add_port o v
      else if same a (codes "-e")
      then add_env o v
      else add_volume o v

  -- The loop over the arguments
  unfoldable pub parse_options : CreateOptions → List Bytes → Result CliError CreateOptions
  parse_options o [] = ok o
  parse_options o (a ∷ []) = option o a
  parse_options o (a ∷ v ∷ rest) =
      let after_flag = λ (o' : CreateOptions). parse_options o' rest in
      let after_option = λ (o' : CreateOptions). parse_options o' (v ∷ rest) in
      if is_flag a then and_then (flag o a v) after_flag else and_then (option o a) after_option

  -- `aetheria create`, behind the check that there is an image
  unfoldable pub create_options : Bytes → List Bytes → Result CliError CreateOptions
  create_options image args = parse_options (default_options image) args
