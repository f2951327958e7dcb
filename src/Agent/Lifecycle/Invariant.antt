-- ===== src/Agent/Lifecycle/Invariant.antt =====
-- Every step keeps the map, the containers and the waiting goroutines in agreement.
use aetheria.Prelude.{
  ℕ, ◌≤◌, ◌<◌, ◌≡◌, refl, true, false, Option, none, some, List, [], ◌∷◌, arith, Bytes,
  if◌then◌else◌, ◌==◌, lookup, erase, lookup-insert, lookup-erase, Option-cases, inl, inr,
  Bool-cases,
}
use aetheria.Prelude.Int.{ℤ}
use aetheria.Agent.Types.{Container, ContainerConfig, ContainerCreateParams}
use aetheria.Agent.Os.{Os}
use aetheria.Agent.Container.{
  Manager, Watcher, Agent, Pending, is_running, set_at, register, create_insert, start_commit,
  launch, launched, spawned, process_exited, stop, kill_timeout, remove, remove_at, find,
  remove_watcher, is_policy, or_default, restart_no, new_container,
}
use aetheria.Agent.Lifecycle.{
  waiting, Step, Reach, inserted, committed, exited, asked_to_stop, killed, removed, elsewhere,
  here, later,
}

-- The fields of one container fit its status.
pub record IsCoherent (c : Container) : Type 0 where
  pub live : is_running c ≡ true → c.cmd ≡ some c.pid
  pub idle : is_running c ≡ false → (c.pid ≡ 0) × (c.cmd ≡ none) × (c.ip ≡ [])

pub record IsValid (m : Manager) (ws : List Watcher) : Type 0 where
  -- the map's pointers are allocated, and what they point to has the name of its entry
  pub entry :
      (n : Bytes) (p : ℕ) → lookup n m.containers ≡ some p → (p < m.next) × ((m.heap p).name ≡ n)
  -- a container that runs is in the map
  pub listed : (p : ℕ) → is_running (m.heap p) ≡ true → lookup (m.heap p).name m.containers ≡ some p
  -- one goroutine waits for each process that runs, and none for a container that does not
  pub watched : (p : ℕ) → waiting p ws ≡ (if is_running (m.heap p) then 1 else 0)
  pub coherent : (p : ℕ) → IsCoherent (m.heap p)

module _ {m : Manager} {ws : List Watcher} (v : IsValid m ws) where
  register-IsValid :
      (c : Container)
      → is_running c ≡ false
      → IsCoherent c
      → lookup c.name m.containers ≡ none
      → IsValid (register c m) ws
  unfolding register
  register-IsValid c idle coherent fresh = record {
    entry = λ n p h. ground (arith, lookup-insert n c.name m.next m.containers, v.entry n p);
    listed = λ p h. ground (
      arith,
      lookup-insert (m.heap p).name c.name m.next m.containers,
      v.listed p,
      v.entry (m.heap p).name p,
    );
    watched = λ p. ground (arith, v.watched p, v.listed p, v.entry (m.heap p).name p);
    coherent = λ p. ground (arith, v.coherent p, coherent.live, coherent.idle);
  }

  -- A container that is in the map and does not run starts, and one goroutine begins to wait.
  begin-IsValid :
      (p : ℕ) (c : Container) (w : Watcher)
      → is_running (m.heap p) ≡ false
      → lookup (m.heap p).name m.containers ≡ some p
      → is_running c ≡ true
      → c.name ≡ (m.heap p).name
      → IsCoherent c
      → w.ptr ≡ p
      → IsValid (record m { heap = set_at m.heap p c }) (w ∷ ws)
  begin-IsValid p c w idle known runs name coherent at_p = record {
    entry = λ n q h. ground (arith, v.entry n q);
    listed = λ q h. ground (arith, v.listed q);
    watched = λ q. ground (arith, v.watched q);
    coherent = λ q. ground (arith, v.coherent q, coherent.live, coherent.idle);
  }

  -- A container stops running, and the goroutine that waited for it is gone.
  end-IsValid :
      (p : ℕ) (c : Container) (ws' : List Watcher)
      → is_running c ≡ false
      → c.name ≡ (m.heap p).name
      → IsCoherent c
      → ((q : ℕ) → waiting q ws' ≡ (if p == q then 0 else waiting q ws))
      → IsValid (record m { heap = set_at m.heap p c }) ws'
  end-IsValid p c ws' idle name coherent gone = record {
    entry = λ n q h. ground (arith, v.entry n q);
    listed = λ q h. ground (arith, v.listed q);
    watched = λ q. ground (arith, v.watched q, gone q);
    coherent = λ q. ground (arith, v.coherent q, coherent.live, coherent.idle);
  }

  -- A container that does not run leaves the map.
  erase-IsValid :
      (n : Bytes) (p : ℕ)
      → lookup n m.containers ≡ some p
      → is_running (m.heap p) ≡ false
      → IsValid (record m { containers = erase n m.containers }) ws
  erase-IsValid n p h idle = record {
    entry = λ k q e. ground (arith, lookup-erase k n m.containers, v.entry k q);
    listed = λ q e. ground (arith, lookup-erase (m.heap q).name n m.containers, v.listed q);
    watched = v.watched;
    coherent = v.coherent;
  }

-- Removing the goroutine of a container that one goroutine waits for leaves none for it, and leaves
-- the others.
waiting-remove_watcher :
    (p q : ℕ) (ws : List Watcher)
    → waiting p ws ≤ 1
    → waiting q (remove_watcher p ws) ≡ (if p == q then 0 else waiting q ws)
waiting-remove_watcher p q [] h = ground arith
waiting-remove_watcher p q (w ∷ ws) h = ground (arith, waiting-remove_watcher p q ws)

abbrev Valid : {W : Type 0} → Agent W → Type 0
Valid a = IsValid a.manager a.waiters

module _ (os : Os) (encode : ContainerConfig → Bytes) (quota_of : ℕ → ℤ) where
  open os use {World}

  create_insert-IsValid :
      (p : ContainerCreateParams) (rootfs : Bytes) (a : Agent World)
      → Valid a
      → Valid (create_insert os encode p rootfs a).1
  unfolding create_insert
  create_insert-IsValid p rootfs a v = elim (Option-cases (lookup p.name a.manager.containers)) [
    | inl fresh ↦ elim (Bool-cases (is_policy (or_default p.restart restart_no))) [
      | inl good ↦
          rw (fresh, create_insert, good)
            (register-IsValid v (new_container p rootfs (or_default p.restart restart_no)) refl
              (record { live = λ e. cc; idle = λ e. (refl, refl, refl) }) fresh)
      | inr bad ↦ rw (fresh, create_insert, bad) v
    ]
    | inr (q, taken) ↦ rw (taken, create_insert) v
  ]

  process_exited-IsValid :
      (t : Watcher) (a : Agent World)
      → 0 < waiting t.ptr a.waiters
      → Valid a
      → Valid (process_exited os t a)
  unfolding process_exited
  process_exited-IsValid t a h v =
      end-IsValid v t.ptr _ _ refl refl (record { live = λ e. cc; idle = λ e. (refl, refl, refl) })
        (λ q. waiting-remove_watcher t.ptr q a.waiters (ground (arith, v.watched t.ptr)))

  -- A container at `p` that is in the map and does not run.
  abbrev IsStartable : ℕ → Agent World → Type 0
  IsStartable p a =
      (is_running (a.manager.heap p) ≡ false)
      × (lookup (a.manager.heap p).name a.manager.containers ≡ some p)

  launched-IsValid :
      (p : ℕ) (name : Bytes) (pid : ℕ) (a : Agent World)
      → IsStartable p a
      → Valid a
      → Valid (launched os quota_of p name pid a)
  unfolding launched
  launched-IsValid p name pid a (idle, known) v =
      begin-IsValid v p _ _ idle known refl refl (record { live = λ e. refl; idle = λ e. cc }) refl

  spawned-IsValid :
      (p : ℕ) (name : Bytes) (process : Option ℕ) (a : Agent World)
      → IsStartable p a
      → Valid a
      → Valid (spawned os quota_of p name process a).1
  unfolding spawned
  spawned-IsValid p name none a h v = v
  spawned-IsValid p name (some pid) a h v = launched-IsValid p name pid a h v

  launch-IsValid :
      (p : ℕ) (name : Bytes) (a : Agent World)
      → IsStartable p a
      → Valid a
      → Valid (launch os quota_of p name a).1
  unfolding launch
  launch-IsValid p name a h v = spawned-IsValid p name _ _ h v

  start_commit-IsValid :
      (s : Pending) (a : Agent World) → Valid a → Valid (start_commit os quota_of s a).1
  unfolding start_commit
  start_commit-IsValid s a v = ground (arith, launch-IsValid s.ptr s.name a, v.entry s.name s.ptr)

  stop-IsValid : (name : Bytes) (a : Agent World) → Valid a → Valid (stop os name a).1
  unfolding stop find
  stop-IsValid name a v = ground arith

  kill_timeout-IsValid : (t : Watcher) (a : Agent World) → Valid a → Valid (kill_timeout os t a)
  unfolding kill_timeout
  kill_timeout-IsValid t a v = ground arith

  remove_at-IsValid :
      (name : Bytes) (p : ℕ) (a : Agent World)
      → lookup name a.manager.containers ≡ some p
      → Valid a
      → Valid (remove_at os name p a).1
  unfolding remove_at
  remove_at-IsValid name p a known v = elim (Bool-cases (is_running (a.manager.heap p))) [
    | inl runs ↦ rw (runs, remove_at) v
    | inr idle ↦ rw (idle, remove_at) (erase-IsValid v name p known idle)
  ]

  remove-IsValid : (name : Bytes) (a : Agent World) → Valid a → Valid (remove os name a).1
  unfolding remove find
  remove-IsValid name a v = elim (Option-cases (lookup name a.manager.containers)) [
    | inl absent ↦ rw (absent, remove, find) v
    | inr (p, known) ↦ rw (known, remove, find) (remove_at-IsValid name p a known v)
  ]

  Step-IsValid : {a b : Agent World} → Step os encode quota_of a b → Valid a → Valid b
  Step-IsValid {a} (inserted p rootfs) v = create_insert-IsValid p rootfs a v
  Step-IsValid {a} (committed s) v = start_commit-IsValid s a v
  Step-IsValid {a} (exited t h) v = process_exited-IsValid t a h v
  Step-IsValid {a} (asked_to_stop name) v = stop-IsValid name a v
  Step-IsValid {a} (killed t) v = kill_timeout-IsValid t a v
  Step-IsValid {a} (removed name) v = remove-IsValid name a v
  Step-IsValid {a} (elsewhere g) v = v

  -- Whatever the goroutines do, in any order, the map, the containers and the waiting goroutines stay
  -- in agreement.
  pub Reach-IsValid : {a b : Agent World} → Reach os encode quota_of a b → Valid a → Valid b
  Reach-IsValid here v = v
  Reach-IsValid (later r s) v = Step-IsValid s (Reach-IsValid r v)
