-- ===== src/Agent/Rpc.antt =====
-- The agent's requests (main.go and the handlers of container.go): which method runs what, and what is
-- answered.
pub mod Steps
pub mod Entries
use aetheria.Prelude.{
  ℕ, Option, none, some, List, [], ◌∷◌, Bytes, codes, if◌then◌else◌, same, ◌==◌, Result, ok, err,
  Exec, pure, raise, ◌>>=◌, ◌>>◌,
}
use aetheria.Prelude.Int.{ℤ, pos, negsuc}
use aetheria.Text.{has_prefix}
use aetheria.Agent.Types.{
  Container, ContainerConfig, ContainerCreateParams, ContainerExecParams, ExecResult, Error,
  cmd_required, exec_failed, invalid_params, unknown_method, panicked,
}
use aetheria.Agent.Os.{Os, Guest, RunResult, exited, not_run}
use aetheria.Agent.Output.{captured}
use aetheria.Agent.Container.{
  Manager, Agent, create, start, stop, remove, exec, list, logs, on_guest,
}
use aetheria.Agent.Images.{ImageListResult}
use aetheria.Agent.PortForward.{Sockets, Forward, list_forwards, connect_forward, containers_of}

pub record InfoResult : Type 0 where
  pub hostname : Bytes
  pub kernel : Bytes
  pub arch : Bytes
  pub uptime : Bytes
  pub go_version : Bytes

-- `params` is the text of the JSON value.
pub record Request : Type 0 where
  pub method : Bytes
  pub params : Bytes
  pub id : ℤ

pub data Payload : Type 0 where
  text : Bytes → Payload
  ran : ExecResult → Payload
  containers : List Container → Payload
  forwards : List Forward → Payload
  images : ImageListResult → Payload
  ready : ℕ → Payload
  told : InfoResult → Payload

-- Either the result or the error is set.
pub record Response : Type 0 where
  pub outcome : Result Error Payload
  pub id : ℤ

-- json.Unmarshal into the parameters of each method; `none` is an error. A missing field is zero.
pub record Codec : Type 0 where
  pub create_params : Bytes → Option ContainerCreateParams
  pub name_params : Bytes → Option Bytes
  pub exec_params : Bytes → Option ContainerExecParams
  pub logs_params : Bytes → Option (Bytes × ℤ)
  pub command_params : Bytes → Option (Bytes × List Bytes)
  pub port_params : Bytes → Option ℕ

-- `if params.Lines <= 0 { params.Lines = 100 }`
unfoldable pub lines_of : ℤ → ℕ
lines_of (pos n) = if n == 0 then 100 else n
lines_of (negsuc n) = 100

module _ {W : Type 0} where
  abbrev pub with_params :
      {P : Type 0} → Option P → (P → Exec (Agent W) Error Payload) → Exec (Agent W) Error Payload
  with_params none f = raise invalid_params
  with_params (some p) f = f p

  abbrev pub unknown : Bytes → Exec (Agent W) Error Payload
  unknown method = raise (unknown_method method)

-- The program of a request of the command line, and its arguments.
unfoldable pub exec_argv : Bytes → List Bytes → List Bytes
exec_argv cmd [] = codes "/bin/sh" ∷ codes "-c" ∷ cmd ∷ []
exec_argv cmd (x ∷ xs) = cmd ∷ x ∷ xs

abbrev ran_result : RunResult → Result Error Payload
ran_result (exited code out errors) =
    ok (ran (record { stdout = captured out; stderr = captured errors; exit_code = code }))
ran_result not_run = err exec_failed

module _ (os : Os) where
  open os use {World}

  abbrev run_argv : List Bytes → Exec (Guest World) Error Payload
  run_argv argv g = let (r, w) = os.run argv g.world in (ran_result r, record g { world = w })

  -- handleExec, behind the decoding
  unfoldable pub run_command : Bytes × List Bytes → Exec (Agent World) Error Payload
  run_command (cmd, args) =
      if same cmd [] then raise cmd_required else on_guest (run_argv (exec_argv cmd args))

module _ (os : Os) (codec : Codec) (encode : ContainerConfig → Bytes) (quota_of : ℕ → ℤ)
    (prepare : Bytes → Bytes → Exec (Guest os.World) Error Bytes) where
  open os use {World}

  -- ContainerManager.HandleRPC
  unfoldable pub container_rpc : Bytes → Bytes → Exec (Agent World) Error Payload
  container_rpc method params =
      if same method (codes "container.create")
      then with_params (codec.create_params params)
          (λ p. create os encode prepare p >> pure (text (codes "created")))
      else if same method (codes "container.start")
      then with_params (codec.name_params params)
          (λ n. start os quota_of prepare n >> pure (text (codes "started")))
      else if same method (codes "container.stop")
      then with_params (codec.name_params params) (λ n. stop os n >> pure (text (codes "stopped")))
      else if same method (codes "container.remove")
      then with_params (codec.name_params params)
          (λ n. remove os n >> pure (text (codes "removed")))
      else if same method (codes "container.exec")
      then with_params (codec.exec_params params) (λ p. exec os p >>= λ r. pure (ran r))
      else if same method (codes "container.list")
      then (λ a. (ok (containers (list os a)), a))
      else if same method (codes "container.logs")
      then with_params (codec.logs_params params)
          (λ p. logs os p.0 (lines_of p.1) >>= λ t. pure (text t))
      else unknown method

module _ (os : Os) (net : Sockets os.World) where
  open os use {World}

  abbrev pub connect_in : ℕ → Exec (Agent World) Error Unit
  connect_in port a =
      let (r, w) = connect_forward net port a.manager a.guest.world in
      (r, record a { guest = record a.guest { world = w } })

module _ (os : Os) (codec : Codec) (net : Sockets os.World) where
  open os use {World}

  -- handlePortForwardRPC
  unfoldable pub port_forward_rpc : Bytes → Bytes → Exec (Agent World) Error Payload
  port_forward_rpc method params =
      if same method (codes "portforward.connect")
      then with_params (codec.port_params params)
          (λ n. connect_in os net n >> pure (text (codes "connected")))
      else if same method (codes "portforward.list")
      then (λ a. (ok (forwards (list_forwards (containers_of a.manager))), a))
      else unknown method

-- The handlers of shells, images and of `info`: they see what the request gives them, the one of shells
-- also the containers, and none of them changes a container.
pub record Services (W : Type 0) : Type 0 where
  pub shell : Bytes → Manager → Exec (Guest W) Error Payload
  pub image : Bytes → Bytes → Exec (Guest W) Error Payload
  pub info : Exec (Guest W) Error Payload

module _ (os : Os) (codec : Codec) (encode : ContainerConfig → Bytes) (quota_of : ℕ → ℤ)
    (prepare : Bytes → Bytes → Exec (Guest os.World) Error Bytes) (net : Sockets os.World)
    (services : Services os.World) where
  open os use {World}

  unfoldable pub shell_in : Bytes → Exec (Agent World) Error Payload
  shell_in params a = on_guest (services.shell params a.manager) a

  unfoldable pub dispatch : Bytes → Bytes → Exec (Agent World) Error Payload
  dispatch method params =
      if same method (codes "container.shell")
      then shell_in params
      else if has_prefix method (codes "container.")
      then container_rpc os codec encode quota_of prepare method params
      else if has_prefix method (codes "image.")
      then on_guest (services.image method params)
      else if has_prefix method (codes "portforward.")
      then port_forward_rpc os codec net method params
      else if same method (codes "ping")
      then pure (text (codes "pong"))
      else if same method (codes "info")
      then on_guest services.info
      else if same method (codes "exec")
      then with_params (codec.command_params params) (run_command os)
      else unknown method

  -- handleRequest: every answer has the request's number; `none` is a panic of the handler, which ends the
  -- agent.
  unfoldable pub handle_request : Request → Agent World → Option Response × Agent World
  handle_request q a =
      let (r, a') = dispatch q.method q.params a in
      (if panicked r then none else some (record { outcome = r; id = q.id }), a')
