-- ===== src/Agent/Lifecycle.antt =====
-- The container manager under concurrency: every step that some goroutine makes while it holds the
-- manager's lock, in any order, with anything at all happening to the rest of the machine between
-- two of them.
pub mod Invariant
pub mod Restore
pub mod Startup
pub mod Safety
use aetheria.Prelude.{
  ℕ, zero, suc, ◌+◌, ◌<◌, ◌≡◌, Bool, true, false, Option, none, some, List, [], ◌∷◌, Bytes,
  if◌then◌else◌, ◌==◌, lookup, Exec, Result, ok,
}
use aetheria.Prelude.Int.{ℤ, pos}
use aetheria.Agent.Types.{Container, ContainerConfig, ContainerCreateParams, created, Error}
use aetheria.Agent.Os.{Os, Guest}
use aetheria.Agent.Container.{
  Manager, Watcher, Agent, Pending, is_running, create_insert, start_commit, process_exited, stop,
  kill_timeout, remove,
}

-- How many goroutines wait for the process of the container at `p`.
abbrev pub waiting : ℕ → List Watcher → ℕ
waiting p [] = 0
waiting p (w ∷ ws) = (if w.ptr == p then 1 else 0) + waiting p ws

module _ (os : Os) (encode : ContainerConfig → Bytes) (quota_of : ℕ → ℤ) where
  open os use {World}

  -- A Create or a Start reaches its second region under the lock with whatever it found in the first
  -- one, however old: `inserted` and `committed` take any such data.
  pub data Step (a : Agent World) : Agent World → Type 0 where
    inserted :
        (p : ContainerCreateParams) (rootfs : Bytes) → Step a (create_insert os encode p rootfs a).1
    committed : (s : Pending) → Step a (start_commit os quota_of s a).1
    exited : (t : Watcher) → 0 < waiting t.ptr a.waiters → Step a (process_exited os t a)
    asked_to_stop : (name : Bytes) → Step a (stop os name a).1
    killed : (t : Watcher) → Step a (kill_timeout os t a)
    removed : (name : Bytes) → Step a (remove os name a).1
    elsewhere : (g : Guest World) → Step a (record a { guest = g })

  pub data Reach (a : Agent World) : Agent World → Type 0 where
    here : Reach a a
    later : {b c : Agent World} → Reach a b → Step b c → Reach a c
