-- ===== src/Agent/Os.antt =====
-- The operating system, as the agent calls it. The program does not implement it: it is a
-- parameter, a state `World` that each call may change. A `Bool` beside the new state is `err == nil`.
use aetheria.Prelude.{ℕ, Bool, Option, List, Bytes}
use aetheria.Prelude.Int.{ℤ}
use aetheria.Prelude.{Dict}
use aetheria.Agent.Types.{ShellSession}

-- os.Stat: the file's size, `os.IsNotExist`, or another error.
pub data FileStat : Type 0 where
  present : ℕ → FileStat
  absent : FileStat
  stat_failed : FileStat

-- os.ReadFile
pub data FileRead : Type 0 where
  contents : Bytes → FileRead
  no_file : FileRead
  read_failed : FileRead

pub record DirEntry : Type 0 where
  pub name : Bytes
  pub is_dir : Bool

-- exec.Cmd.Run: an exit code (also 0) with what was written to the standard output and to the
-- standard error, one element for each Write, or an error that is no *exec.ExitError.
pub data RunResult : Type 0 where
  exited : ℤ → List Bytes → List Bytes → RunResult
  not_run : RunResult

-- What exec.Cmd.Start is given.
pub record Command : Type 0 where
  pub argv : List Bytes
  pub env : List Bytes
  pub clone_flags : ℕ
  pub log_file : Option Bytes

-- syscall.Mount
pub record Mount : Type 0 where
  pub source : Bytes
  pub target : Bytes
  pub fs_type : Bytes
  pub options : Bytes

pub record Os : Type 1 where
  pub World : Type 0
  pub stat : Bytes → World → FileStat
  pub read_file : Bytes → World → FileRead
  pub read_dir : Bytes → World → Option (List DirEntry)
  pub environ : World → List Bytes
  pub mkdir_all : Bytes → World → Bool × World
  pub remove : Bytes → World → Bool × World
  pub remove_all : Bytes → World → Bool × World
  pub write_file : Bytes → Bytes → World → Bool × World
  pub rename : Bytes → Bytes → World → Bool × World
  pub open_append : Bytes → World → Bool × World
  pub mount : Mount → World → Bool × World
  pub unmount : Bytes → World → Bool × World
  pub run : List Bytes → World → RunResult × World
  pub start : Command → World → Option ℕ × World
  pub kill : ℕ → ℕ → World → World

-- The agent's memory beside the container map, in package variables: the storage paths of
-- container.go, the bridge and the address counter of network.go, the path cache of images.go, the
-- tokens of oci.go, the sessions of shell.go.
pub record Guest (W : Type 0) : Type 0 where
  pub world : W
  pub containers_dir : Bytes
  pub images_dir : Bytes
  pub bridge_done : Bool
  pub next_ip : ℕ
  pub oci_image_paths : Dict Bytes
  pub auth_tokens : Dict Bytes
  pub sessions : Dict ShellSession
