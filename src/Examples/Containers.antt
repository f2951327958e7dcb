-- ===== src/Examples/Containers.antt =====
-- A container that is created, started, asked to stop and removed.
use mathlib.Core.List.{flatten}
use aetheria.Prelude.{
  ℕ, ◌≡◌, refl, true, some, [], ◌∷◌, codes, lookup, insert, bytes_dec, if◌then◌else◌, ok,
}
use aetheria.Agent.Container.{
  Agent, Pending, is_running, create_insert, register, is_policy, start_commit, launch, launched,
  spawned, connect, stop,
}
use aetheria.Agent.Lifecycle.{Reach, here, later, inserted, committed, waiting}
use aetheria.Agent.Lifecycle.Safety.{running_can_stop, running_names_differ, one_waiter}
use aetheria.Agent.Output.{write_all, empty_writer}
use aetheria.Agent.Output.Bounds.{write_all_lem}
use aetheria.Examples.Machine.{calm, no_config, zero_quota, web_params, empty_agent}

abbrev web_created : Agent ℕ
web_created = (create_insert calm no_config web_params (codes "/srv/web") empty_agent).1

abbrev web_pending : Pending
web_pending = record { ptr = 0; name = codes "web"; image = []; rootfs = codes "/srv/web" }

abbrev web_started : Agent ℕ
web_started = (start_commit calm zero_quota web_pending web_created).1

web_reached : Reach calm no_config zero_quota empty_agent web_started
web_reached = later (later here (inserted web_params (codes "/srv/web"))) (committed web_pending)

web_runs : is_running (web_started.manager.heap 0) ≡ true
unfolding create_insert is_policy register insert start_commit launch spawned launched connect
    lookup bytes_dec
web_runs = refl

running_can_stop_example :
    (lookup (web_started.manager.heap 0).name web_started.manager.containers ≡ some 0)
    × ((stop calm (web_started.manager.heap 0).name web_started).0 ≡ ok tt)
running_can_stop_example = running_can_stop calm no_config zero_quota web_reached 0 web_runs

running_names_differ_example : ◌≡◌ {A = ℕ} 0 0
running_names_differ_example =
    running_names_differ calm no_config zero_quota web_reached 0 0 web_runs web_runs refl

one_waiter_example :
    waiting 0 web_started.waiters ≡ (if is_running (web_started.manager.heap 0) then 1 else 0)
one_waiter_example = one_waiter calm no_config zero_quota web_reached 0

write_all_lem_example :
    ((write_all (empty_writer 4) (codes "ab" ∷ codes "cde" ∷ [])).buf ≡ codes "abcd")
    × ((write_all (empty_writer 4) (codes "ab" ∷ codes "cde" ∷ [])).truncated ≡ true)
unfolding flatten
write_all_lem_example = write_all_lem 4 (codes "ab" ∷ codes "cde" ∷ []) ((λ e. cc), ((λ e. cc), tt))
