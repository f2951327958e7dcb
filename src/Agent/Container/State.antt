-- ===== src/Agent/Container/State.antt =====
-- The container map, and the goroutines that hold a container.
use aetheria.Prelude.{
  ℕ, Bool, true, false, none, some, List, [], Bytes, codes, if◌then◌else◌, ltb, ◌==◌, length, same,
  Result, ok, err, Exec, Dict, lookup,
}
use aetheria.Text.{contains_any}
use aetheria.Agent.Types.{
  Container, created, running, stopped, Error, empty_name, long_name, bad_name, not_found,
}
use aetheria.Agent.Os.{Guest}

-- Containers are shared by pointer, between the map and the goroutines: `heap` is what the pointers
-- below `next` point to.
pub record Manager : Type 0 where
  pub heap : ℕ → Container
  pub next : ℕ
  pub containers : Dict ℕ

-- A goroutine that Start (waiting for the process to end) or Stop (waiting to kill it) left running:
-- it holds the container's pointer, its name and the process id.
pub record Watcher : Type 0 where
  pub ptr : ℕ
  pub name : Bytes
  pub pid : ℕ

pub record Agent (W : Type 0) : Type 0 where
  pub guest : Guest W
  pub manager : Manager
  pub waiters : List Watcher
  pub killers : List Watcher

abbrev pub set_at : (ℕ → Container) → ℕ → Container → ℕ → Container
set_at heap p c q = if p == q then c else heap q

abbrev pub is_running : Container → Bool
is_running c = elim c.status [ created ↦ false | running ↦ true | stopped ↦ false ]

-- validateContainerName
unfoldable pub validate_container_name : Bytes → Result Error (Unit {0})
validate_container_name name =
    if same name []
    then err empty_name
    else if contains_any name (codes "/\\. \t\n")
    then err (bad_name name)
    else if ltb 64 (length name)
    then err long_name
    else ok tt

module _ {W : Type 0} where
  abbrev pub lift : {A : Type 0} → Result Error A → Exec (Agent W) Error A
  lift r a = (r, a)

  -- A step of the rest of the agent, which leaves the containers alone.
  abbrev pub on_guest : {A : Type 0} → Exec (Guest W) Error A → Exec (Agent W) Error A
  on_guest m a = let (r, g) = m a.guest in (r, record a { guest = g })

  -- The pointer that the map holds for a name.
  unfoldable pub find : Bytes → Exec (Agent W) Error ℕ
  find name a = elim (lookup name a.manager.containers) [
    | none ↦ (err (not_found name), a)
    | some p ↦ (ok p, a)
  ]

-- A signal's number.
abbrev pub sigterm : ℕ
sigterm = 15

abbrev pub sigkill : ℕ
sigkill = 9
