-- ===== src/Agent/Lifecycle/Safety.antt =====
-- What the invariant gives a client of the container manager.
use aetheria.Prelude.{
  ℕ, ◌≡◌, ◌≢◌, refl, true, none, some, [], arith, Bytes, if◌then◌else◌, lookup, lookup-nil, ok,
  ◌>>◌,
}
use aetheria.Prelude.Int.{ℤ, pos}
use aetheria.Agent.Types.{Container, ContainerConfig, created}
use aetheria.Agent.Os.{Os, Guest}
use aetheria.Agent.Container.{Agent, is_running, stop, remove, find}
use aetheria.Agent.Lifecycle.{waiting, Reach}
use aetheria.Agent.Lifecycle.Invariant.{IsValid, Reach-IsValid}

-- What an unallocated pointer points to.
abbrev blank : Container
blank = record {
  name = [];
  rootfs = [];
  pid = 0;
  status = created;
  image = [];
  network = [];
  ip = [];
  ports = [];
  resources = record { memory_max = pos 0; cpu_max = 0; pids_max = pos 0 };
  restart = [];
  env = [];
  volumes = [];
  cmd = none;
}

-- The agent before any container.
abbrev pub initial : {W : Type 0} → Guest W → Agent W
initial g = record {
  guest = g;
  manager = record { heap = λ _. blank; next = 0; containers = [] };
  waiters = [];
  killers = [];
}

initial-IsValid : {W : Type 0} (g : Guest W) → IsValid (initial g).manager []
initial-IsValid g = record {
  entry = λ n p h. cc (lookup-nil {V = ℕ} n);
  listed = λ p h. cc;
  watched = λ p. refl;
  coherent = λ p. record { live = λ e. cc; idle = λ e. (refl, refl, refl) };
}

module _ (os : Os) (encode : ContainerConfig → Bytes) (quota_of : ℕ → ℤ) where
  open os use {World}

  module _ {g : Guest World} {a : Agent World} (r : Reach os encode quota_of (initial g) a) where
    valid : IsValid a.manager a.waiters
    valid = Reach-IsValid os encode quota_of r (initial-IsValid g)

  -- In every reachable state, a container that runs is in the map under its name, and Stop of that
  -- name finds it and succeeds.
  pub running_can_stop :
      {g : Guest World} {a : Agent World}
      → Reach os encode quota_of (initial g) a
      → (p : ℕ) → is_running (a.manager.heap p) ≡ true
      → (lookup (a.manager.heap p).name a.manager.containers ≡ some p)
        × ((stop os (a.manager.heap p).name a).0 ≡ ok tt)
  unfolding stop find
  running_can_stop {a} r p runs =
      let v = valid r in (v.listed p runs, ground (arith, v.listed p, (v.coherent p).live))

  -- In every reachable state, two containers that run have different names.
  pub running_names_differ :
      {g : Guest World} {a : Agent World}
      → Reach os encode quota_of (initial g) a
      → (p q : ℕ) → is_running (a.manager.heap p) ≡ true
      → is_running (a.manager.heap q) ≡ true
      → (a.manager.heap p).name ≡ (a.manager.heap q).name
      → p ≡ q
  running_names_differ r p q run_p run_q e =
      let v = valid r in ground (arith, v.listed p, v.listed q)

  -- In every reachable state, one goroutine waits for the process of a container that runs, and none
  -- for a container that does not.
  pub one_waiter :
      {g : Guest World} {a : Agent World}
      → Reach os encode quota_of (initial g) a
      → (p : ℕ) → waiting p a.waiters ≡ (if is_running (a.manager.heap p) then 1 else 0)
  one_waiter r p = (valid r).watched p

-- A stop request that is followed at once by a remove request for the same name never removes the
-- container, in any state: the stop fails, or the container still counts as running.
pub stop_then_remove :
    (os : Os) (name : Bytes) (a : Agent os.World) → ((stop os name >> remove os name) a).0 ≢ ok tt
unfolding stop remove find
stop_then_remove os name a e = ground arith
