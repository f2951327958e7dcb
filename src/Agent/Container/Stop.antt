-- ===== src/Agent/Container/Stop.antt =====
-- ContainerManager.Stop and Remove, and the goroutine that kills what did not stop.
use aetheria.Prelude.{
  ℕ, Bool, true, false, ◌&&◌, none, some, [], ◌∷◌, Bytes, if◌then◌else◌, ◌==◌, ok, err, Exec, ◌>>=◌,
  erase,
}
use aetheria.FilePath.{join_path}
use aetheria.Agent.Types.{Container, Error, not_running, still_running}
use aetheria.Agent.Os.{Os, Guest}
use aetheria.Agent.Container.State.{Watcher, Agent, is_running, find, sigterm, sigkill}

abbrev has_cmd : Container → Bool
has_cmd c = elim c.cmd [ none ↦ false | some _ ↦ true ]

module _ (os : Os) where
  open os use {World}

  abbrev send : ℕ → ℕ → Guest World → Guest World
  send pid signal g = record g { world = os.kill pid signal g.world }

  unfoldable pub stop_at : Bytes → ℕ → Exec (Agent World) Error Unit
  stop_at name p a =
      let c = a.manager.heap p in
      if is_running c && has_cmd c
      then (
        ok tt,
        record a {
          guest = send c.pid sigterm a.guest;
          killers = (record { ptr = p; name = name; pid = c.pid }) ∷ a.killers;
        },
      )
      else (err (not_running name), a)

  unfoldable pub stop : Bytes → Exec (Agent World) Error Unit
  unfolding stop_at
  stop name = do p ← find name; stop_at name p

  -- Five seconds later: the same process still runs.
  unfoldable pub kill_timeout : Watcher → Agent World → Agent World
  kill_timeout t a =
      let c = a.manager.heap t.ptr in
      if is_running c && c.pid == t.pid then record a { guest = send t.pid sigkill a.guest } else a

  -- The name leaves the map under the lock; then the files are removed.
  unfoldable pub remove_at : Bytes → ℕ → Exec (Agent World) Error Unit
  remove_at name p a =
      let c = a.manager.heap p in
      let w₁ = (os.unmount c.rootfs a.guest.world).1 in
      let w₂ = (os.remove_all (join_path (a.guest.containers_dir ∷ name ∷ [])) w₁).1 in
      if is_running c then (err (still_running name), a) else (
        ok tt,
        record a {
          guest = record a.guest { world = w₂ };
          manager = record a.manager { containers = erase name a.manager.containers };
        },
      )

  unfoldable pub remove : Bytes → Exec (Agent World) Error Unit
  unfolding remove_at
  remove name = do p ← find name; remove_at name p
