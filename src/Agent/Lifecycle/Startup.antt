-- ===== src/Agent/Lifecycle/Startup.antt =====
-- The agent that NewContainerManager makes satisfies the invariant.
use aetheria.Prelude.{
  ℕ, ◌<◌, ◌≡◌, refl, sym, subst, Bool, true, false, if◌then◌else◌, Option, none, some, List, [],
  ◌∷◌, arith, Bytes, lookup, lookup-insert, lookup-nil, Exec, inl, inr,
}
use aetheria.Prelude.Int.{ℤ}
use aetheria.Agent.Types.{Container, ContainerConfig, Error, panicked}
use aetheria.Agent.Os.{Os, Guest, DirEntry}
use aetheria.Agent.Container.{
  Manager, Agent, is_running, register, restored, load_entry, load_entries, load_configs, start_all,
  auto_restart, start, load_found, new_manager, to_restart, detect_storage_mode,
}
use aetheria.Agent.Cgroup.{init_cgroup_hierarchy}
use aetheria.Agent.Lifecycle.{Reach, here}
use aetheria.Agent.Lifecycle.Invariant.{IsValid, IsCoherent, Reach-IsValid}
use aetheria.Agent.Lifecycle.Safety.{initial}
use aetheria.Agent.Lifecycle.Restore.{Outcome, load_entry-Outcome}
use aetheria.Agent.Rpc.Steps.{start-From}

-- No container runs, and the map leads to containers of its names.
record AllIdle (m : Manager) : Type 0 where
  pub idle : (p : ℕ) → is_running (m.heap p) ≡ false
  pub coherent : (p : ℕ) → IsCoherent (m.heap p)
  pub entry :
      (n : Bytes) (p : ℕ) → lookup n m.containers ≡ some p → (p < m.next) × ((m.heap p).name ≡ n)

restored-IsCoherent :
    (cfg : ContainerConfig) (name rootfs : Bytes) → IsCoherent (restored cfg name rootfs)
restored-IsCoherent cfg name rootfs = record { live = λ e. cc; idle = λ e. (refl, refl, refl) }

register-AllIdle :
    (c : Container) (m : Manager)
    → is_running c ≡ false
    → IsCoherent c
    → AllIdle m
    → AllIdle (register c m)
unfolding register
register-AllIdle c m stopped coherent h = record {
  idle = λ p. ground (arith, h.idle p);
  coherent = λ p. record {
    live = λ e. ground (arith, (h.coherent p).live, coherent.live, h.idle p);
    idle = λ e. ground (arith, (h.coherent p).idle, coherent.idle, h.idle p);
  };
  entry = λ n p e. ground (arith, lookup-insert n c.name m.next m.containers, h.entry n p);
}

AllIdle-IsValid : (m : Manager) → AllIdle m → IsValid m []
AllIdle-IsValid m h = record {
  entry = h.entry;
  listed = λ p e. ground (arith, h.idle p);
  watched = λ p. ground (arith, h.idle p);
  coherent = h.coherent;
}

module _ (os : Os) (decode : Bytes → Option ContainerConfig) (g : Guest os.World) where
  load_entry-AllIdle :
      (e : DirEntry) (m m' : Manager) → Outcome os decode g e m m' → AllIdle m → AllIdle m'
  load_entry-AllIdle e m m' (inl same_m) h = subst AllIdle (sym same_m) h
  load_entry-AllIdle e m m' (inr (cfg, rootfs, grown)) h =
      let c = restored cfg e.name rootfs in
      subst AllIdle (sym grown)
        (register-AllIdle c m refl (restored-IsCoherent cfg e.name rootfs) h)

  load_entries-AllIdle :
      (es : List DirEntry) (m : Manager) → AllIdle m → AllIdle (load_entries os decode g es m)
  unfolding load_entries
  load_entries-AllIdle [] m h = h
  load_entries-AllIdle (e ∷ es) m h =
      let m₁ = load_entry os decode g e m in
      load_entries-AllIdle es m₁ (load_entry-AllIdle e m m₁ (load_entry-Outcome os decode g e m) h)

  load_found-AllIdle :
      (o : Option (List DirEntry)) (m : Manager) → AllIdle m → AllIdle (load_found os decode g o m)
  load_found-AllIdle none m h = h
  load_found-AllIdle (some es) m h = load_entries-AllIdle es m h

initial-AllIdle : {W : Type 0} (g : Guest W) → AllIdle (initial g).manager
initial-AllIdle g = record {
  idle = λ p. refl;
  coherent = λ p. record { live = λ e. cc; idle = λ e. (refl, refl, refl) };
  entry = λ n p h. cc (lookup-nil {V = ℕ} n);
}

module _ (os : Os) (encode : ContainerConfig → Bytes) (quota_of : ℕ → ℤ)
    (prepare : Bytes → Bytes → Exec (Guest os.World) Error Bytes) where
  open os use {World}

  if-Reach :
      (a₀ : Agent World) (b : Bool) (x y : Bool × Agent World)
      → Reach os encode quota_of a₀ x.1
      → Reach os encode quota_of a₀ y.1
      → Reach os encode quota_of a₀ (if b then x else y).1
  if-Reach a₀ true x y hx hy = hx
  if-Reach a₀ false x y hx hy = hy

  start_all-Reach :
      (names : List Bytes) (a₀ a : Agent World)
      → Reach os encode quota_of a₀ a
      → Reach os encode quota_of a₀ (start_all os quota_of prepare names a).1
  unfolding start_all
  start_all-Reach [] a₀ a r = r
  start_all-Reach (name ∷ names) a₀ a r =
      let started = (start-From os encode quota_of a₀ prepare name).after a r in
      if-Reach a₀ (panicked (start os quota_of prepare name a).0) _ _ started
        (start_all-Reach names a₀ (start os quota_of prepare name a).1 started)

  auto_restart-IsValid :
      (a : Agent World)
      → AllIdle a.manager
      → a.waiters ≡ []
      → IsValid
          (auto_restart os quota_of prepare a).1.manager
          (auto_restart os quota_of prepare a).1.waiters
  unfolding auto_restart
  auto_restart-IsValid a h none_waits =
      Reach-IsValid os encode quota_of
        (start_all-Reach (to_restart a.manager.heap a.manager.containers) a a here)
        (rw none_waits (AllIdle-IsValid a.manager h))

  -- Whatever was found on disk, and whichever containers were started again: the agent that
  -- NewContainerManager makes satisfies the invariant of the lifecycle, and so does every state
  -- that the steps lead to from it.
  pub new_manager-IsValid :
      (decode : Bytes → Option ContainerConfig) (g : Guest World) (a : Agent World)
      → Reach os encode quota_of (new_manager os quota_of prepare decode (initial g)).1 a
      → IsValid a.manager a.waiters
  unfolding new_manager load_configs auto_restart
  new_manager-IsValid decode g a r =
      let g₁ = detect_storage_mode os g in
      let g₂ : Guest World = record g₁ { world = init_cgroup_hierarchy os g₁.world } in
      let a₁ = initial g in
      let found = os.read_dir g₂.containers_dir g₂.world in
      let a₀ : Agent World = record a₁ {
        guest = g₂;
        manager = load_found os decode g₂ found a₁.manager;
      } in
      Reach-IsValid os encode quota_of r (
        auto_restart-IsValid a₀
          (load_found-AllIdle os decode g₂ found a₁.manager (initial-AllIdle g)) refl)
