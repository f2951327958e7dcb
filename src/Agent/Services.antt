-- ===== src/Agent/Services.antt =====
-- The handlers that the routing of requests calls for shells, images and `info` (main.go, images.go,
-- shell.go): handleShellRPC, handleImageRPC and handleInfo behind their decoding.
use aetheria.Prelude.{
  Option, none, some, [], ◌∷◌, ◌++◌, Bytes, codes, if◌then◌else◌, same, ◌==◌, Result, ok, err, Exec,
  pure, raise, ◌>>=◌, ◌>>◌,
}
use aetheria.Text.{is_space, trim_left}
use aetheria.Agent.Types.{Error, invalid_params, unknown_image_method}
use aetheria.Agent.Os.{Os, Guest, FileRead, contents, no_file, read_failed}
use aetheria.Agent.Container.{Manager}
use aetheria.Agent.Images.{Web, pull, list_images, ImageListResult}
use aetheria.Agent.Rpc.{Payload, text, images, ready, told, Services}
use aetheria.Agent.Shell.{Pty, ShellParams, handle_shell}

-- os.Hostname (empty on an error), the release of uname(2), runtime.GOARCH and runtime.Version.
pub record System (W : Type 0) : Type 0 where
  pub hostname : W → Bytes
  pub release : W → Bytes
  pub arch : Bytes
  pub go_version : Bytes

-- The bytes before the first zero
unfoldable pub until_zero : Bytes → Bytes
until_zero [] = []
until_zero (b ∷ bs) = let rest = until_zero bs in if b == 0 then [] else b ∷ rest

unfoldable pub until_space : Bytes → Bytes
until_space [] = []
until_space (b ∷ bs) = let rest = until_space bs in if is_space b then [] else b ∷ rest

-- The first of strings.Fields, with its unit; empty if there is none
abbrev pub seconds : Bytes → Bytes
seconds [] = []
seconds (b ∷ bs) = (b ∷ bs) ++ codes "s"

abbrev pub uptime_of : FileRead → Bytes
uptime_of (contents s) = seconds (until_space (trim_left is_space s))
uptime_of no_file = []
uptime_of read_failed = []

module _ (os : Os) where
  open os use {World}

  -- handleInfo
  unfoldable pub handle_info : System World → Exec (Guest World) Error Payload
  handle_info system g = (
    ok (
        told (record {
          hostname = system.hostname g.world;
          kernel = until_zero (system.release g.world);
          arch = system.arch;
          uptime = uptime_of (os.read_file (codes "/proc/uptime") g.world);
          go_version = system.go_version;
        })),
    g,
  )

  abbrev pub listing : Result Error ImageListResult → Result Error Payload
  listing (ok l) = ok (images l)
  listing (err e) = err e

  -- handleImageRPC
  unfoldable pub handle_image_rpc :
      Web World
      → (Bytes → Exec (Guest World) Error Bytes)
      → (Bytes → Option Bytes)
      → Bytes
      → Bytes
      → Exec (Guest World) Error Payload
  handle_image_rpc web pull_oci name_params method params =
      if same method (codes "image.pull")
      then elim (name_params params) [
        | none ↦ raise invalid_params
        | some name ↦ pull os web pull_oci name >> pure (text (codes "pulled"))
      ]
      else if same method (codes "image.list")
      then (λ g. (listing (list_images os g), g))
      else raise (unknown_image_method method)

  -- handleShellRPC
  unfoldable pub handle_shell_rpc :
      Pty World → (Bytes → Option ShellParams) → Bytes → Manager → Exec (Guest World) Error Payload
  handle_shell_rpc pty shell_params params m = elim (shell_params params) [
    | none ↦ raise invalid_params
    | some p ↦ handle_shell pty m p >>= λ port. pure (ready port)
  ]

  -- The three of them, as the routing of requests takes them
  abbrev pub services :
      Web World
      → (Bytes → Exec (Guest World) Error Bytes)
      → System World
      → Pty World
      → (Bytes → Option Bytes)
      → (Bytes → Option ShellParams)
      → Services World
  services web pull_oci system pty name_params shell_params = record {
    shell = handle_shell_rpc pty shell_params;
    image = handle_image_rpc web pull_oci name_params;
    info = handle_info system;
  }
