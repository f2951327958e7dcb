-- ===== src/Agent/Container/Query.antt =====
-- ContainerManager.Exec, List and Logs.
use aetheria.Prelude.{
  ℕ, ◌-◌, none, List, [], ◌∷◌, ◌++◌, map, Bytes, codes, if◌then◌else◌, length, drop, Result, ok,
  err, Exec, ◌>>=◌, ◌>>◌, values,
}
use aetheria.Text.{split, join}
use aetheria.Text.Decimal.{decimal}
use aetheria.FilePath.{join_path}
use aetheria.Agent.Types.{
  Container, ContainerExecParams, ExecResult, Error, not_running, process_gone, nsenter_failed,
  read_logs,
}
use aetheria.Agent.Os.{
  Os, Guest, present, absent, stat_failed, contents, no_file, read_failed, exited, not_run,
  RunResult,
}
use aetheria.Agent.Output.{captured}
use aetheria.Agent.Container.State.{Agent, is_running, find, on_guest}
use aetheria.Agent.Container.Start.{has_own_net}

-- The command to run in the container's namespaces: a shell command if there are no arguments.
unfoldable pub nsenter_argv : Container → ContainerExecParams → List Bytes
nsenter_argv c p =
    map codes ("nsenter" ∷ "-t" ∷ [])
    ++ decimal c.pid ∷ map codes ("-p" ∷ "-m" ∷ "-u" ∷ "-i" ∷ [])
    ++ (if has_own_net c.network then codes "-n" ∷ [] else [])
    ++ codes "--"
      ∷ elim p.args [ [] ↦ codes "/bin/sh" ∷ codes "-c" ∷ p.cmd ∷ [] | x ∷ xs ↦ p.cmd ∷ x ∷ xs ]

-- The last `lines` lines; `start` is 0 where there are fewer.
unfoldable pub last_lines : Bytes → ℕ → Bytes
last_lines text lines =
    let all = split text b'\n' in join (drop (length all - lines) all) (codes "\n")

module _ (os : Os) where
  open os use {World}

  abbrev exec_result : Error → RunResult → Result Error ExecResult
  exec_result e (exited code out errors) =
      ok (record { stdout = captured out; stderr = captured errors; exit_code = code })
  exec_result e not_run = err e

  unfoldable pub run_in : Container → ContainerExecParams → Exec (Guest World) Error ExecResult
  run_in c p g =
      let (r, w) = os.run (nsenter_argv c p) g.world in
      elim (os.stat (codes "/proc/" ++ decimal c.pid) g.world) [
        | absent ↦ (err (process_gone p.name c.pid), g)
        | present _ ↦ (exec_result nsenter_failed r, record g { world = w })
        | stat_failed ↦ (exec_result nsenter_failed r, record g { world = w })
      ]

  unfoldable pub exec_at : ContainerExecParams → ℕ → Exec (Agent World) Error ExecResult
  exec_at p ptr a =
      let c = a.manager.heap ptr in
      if is_running c then on_guest (run_in c p) a else (err (not_running p.name), a)

  unfoldable pub exec : ContainerExecParams → Exec (Agent World) Error ExecResult
  unfolding exec_at
  exec p = do ptr ← find p.name; exec_at p ptr

  -- A copy of each container, without its process handle, in the order of the iteration.
  unfoldable pub list : Agent World → List Container
  list a = map (λ p. record (a.manager.heap p) { cmd = none }) (values a.manager.containers)

  unfoldable pub logs : Bytes → ℕ → Exec (Agent World) Error Bytes
  logs name lines = do
    find name
    λ a.
        elim (os.read_file (join_path (a.guest.containers_dir ∷ name ∷ codes "container.log" ∷ []))
          a.guest.world) [
            | contents text ↦ (ok (last_lines text lines), a)
            | no_file ↦ (ok [], a)
            | read_failed ↦ (err read_logs, a)
          ]
