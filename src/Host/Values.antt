-- ===== src/Host/Values.antt =====
-- The values of the options of `aetheria create`: ports, sizes of memory and volumes.
pub mod Ports
pub mod Sizes
pub mod Volumes
use aetheria.Prelude.{
  ℕ, ◌-◌, ◌*◌, ◌^◌, Bool, true, false, ◌||◌, Option, none, some, List, [], ◌∷◌, Bytes, codes, ◌==◌,
  if◌then◌else◌, same, length, take, Result, ok, err,
}
use aetheria.Prelude.Int.{ℤ, pos, mul64}
use aetheria.Text.{split_n, has_suffix, trim_space, to_lower}
use aetheria.Text.Scan.{scan_uint16, scan_int64}
use aetheria.Agent.Types.{PortMapping, VolumeMount}

pub data CliError : Type 0 where
  no_colon zero_port no_volume_colon : CliError
  bad_host_port bad_container_port : Bytes → CliError

abbrev pub tcp : Bytes
tcp = codes "tcp"

abbrev pub ports_of : Bytes → Bytes → Option ℕ → Option ℕ → Result CliError PortMapping
ports_of a b none _ = err (bad_host_port a)
ports_of a b (some hp) none = err (bad_container_port b)
ports_of a b (some hp) (some cp) =
    if hp == 0 || cp == 0
    then err zero_port
    else ok (record { host_port = hp; container_port = cp; protocol = tcp })

abbrev pub port_parts : List Bytes → Result CliError PortMapping
port_parts (a ∷ b ∷ []) = ports_of a b (scan_uint16 a) (scan_uint16 b)
port_parts _ = err no_colon

-- parsePortMapping
unfoldable pub parse_port_mapping : Bytes → Result CliError PortMapping
parse_port_mapping s = port_parts (split_n s b':' 2)

abbrev or_zero : Option ℤ → ℤ
or_zero none = pos 0
or_zero (some n) = n

-- The text before the unit; a number that cannot be read counts as 0.
abbrev pub times : Bytes → ℕ → ℤ
times s multiplier = mul64 (or_zero (scan_int64 s)) multiplier

abbrev pub but_last : Bytes → Bytes
but_last s = take (length s - 1) s

-- parseMemorySize, behind ToLower and TrimSpace
unfoldable pub size_of : Bytes → ℤ
size_of s =
    if has_suffix s (codes "g")
    then times (but_last s) (1024 * 1024 * 1024)
    else if has_suffix s (codes "m")
    then times (but_last s) (1024 * 1024)
    else if has_suffix s (codes "k")
    then times (but_last s) 1024
    else times s 1

-- parseMemorySize
unfoldable pub parse_memory_size : Bytes → ℤ
parse_memory_size s = size_of (trim_space (to_lower s))

abbrev volume_parts : List Bytes → Result CliError VolumeMount
volume_parts (host ∷ inside ∷ []) =
    ok (record { host_path = host; container_path = inside; read_only = false })
volume_parts (host ∷ inside ∷ mode ∷ []) =
    ok (record { host_path = host; container_path = inside; read_only = same mode (codes "ro") })
volume_parts _ = err no_volume_colon

-- parseVolumeMount
unfoldable pub parse_volume_mount : Bytes → Result CliError VolumeMount
parse_volume_mount s = volume_parts (split_n s b':' 3)
