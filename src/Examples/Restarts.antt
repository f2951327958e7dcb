-- ===== src/Examples/Restarts.antt =====
-- A restart of the machine, with one container on disk.
use aetheria.Prelude.{ℕ, refl, true, some, Option, [], ◌∷◌, Bytes, codes}
use aetheria.Agent.Types.{ContainerConfig}
use aetheria.Agent.Os.{Os, DirEntry, contents}
use aetheria.Agent.Container.{Agent, load_entries, new_manager}
use aetheria.Agent.Lifecycle.{here}
use aetheria.Agent.Lifecycle.Invariant.{IsValid}
use aetheria.Agent.Lifecycle.Safety.{initial}
use aetheria.Agent.Lifecycle.Restore.{load_entries-restores, Restored}
use aetheria.Agent.Lifecycle.Startup.{new_manager-IsValid}
use aetheria.Examples.Machine.{
  calm, no_config, zero_quota, prepared, web_params, fresh_guest, empty_agent,
}

abbrev web_dir : DirEntry
web_dir = record { name = codes "web"; is_dir = true }

abbrev disk : Os
disk = record calm { read_dir = λ path w. some (web_dir ∷ []); read_file = λ path w. contents [] }

abbrev web_config : ContainerConfig
web_config = record {
  name = codes "old";
  image = [];
  network = codes "host";
  ports = web_params.ports;
  resources = web_params.resources;
  restart = codes "always";
  env = [];
  volumes = [];
}

abbrev decoded : Bytes → Option ContainerConfig
decoded text = some web_config

load_entries-restores_example :
    Restored
      (codes "web")
      (record web_config { name = codes "web" })
      (load_entries disk decoded fresh_guest (web_dir ∷ []) empty_agent.manager)
load_entries-restores_example =
    load_entries-restores disk decoded fresh_guest [] [] web_dir empty_agent.manager [] web_config
      refl refl refl (λ e. cc) tt

abbrev restarted : Agent ℕ
restarted = (new_manager disk zero_quota prepared decoded (initial fresh_guest)).1

new_manager-IsValid_example : IsValid restarted.manager restarted.waiters
new_manager-IsValid_example =
    new_manager-IsValid disk no_config zero_quota prepared decoded fresh_guest restarted here
