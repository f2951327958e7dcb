-- ===== src/Examples/Machine.antt =====
-- An operating system in which every call succeeds, every file but those below /proc is there, and
-- the processes are numbered from the counter that is its state.
use aetheria.Prelude.{ℕ, ◌+◌, true, false, some, [], ◌∷◌, Bytes, codes, Exec, pure}
use aetheria.Prelude.Int.{ℤ, pos}
use aetheria.Agent.Types.{ContainerConfig, ContainerCreateParams, Error}
use aetheria.Agent.Os.{Os, Guest, present, exited, no_file}
use aetheria.Agent.Container.{Agent}
use aetheria.Agent.Lifecycle.Safety.{initial}

abbrev pub calm : Os
calm = record {
  World = ℕ;
  stat = λ path w. present 1;
  read_file = λ path w. no_file;
  read_dir = λ path w. some [];
  environ = λ w. [];
  mkdir_all = λ path w. (true, w);
  remove = λ path w. (true, w);
  remove_all = λ path w. (true, w);
  write_file = λ path b w. (true, w);
  rename = λ from to w. (true, w);
  open_append = λ path w. (true, w);
  mount = λ m w. (true, w);
  unmount = λ path w. (true, w);
  run = λ argv w. (exited (pos 0) [] [], w);
  start = λ c w. (some (w + 1), w + 1);
  kill = λ pid signal w. w;
}

abbrev pub fresh_guest : Guest ℕ
fresh_guest = record {
  world = 100;
  containers_dir = codes "/var/aetheria/containers";
  images_dir = codes "/mnt/host/aetheria-data/images";
  bridge_done = false;
  next_ip = 2;
  oci_image_paths = [];
  auth_tokens = [];
  sessions = [];
}

abbrev pub no_config : ContainerConfig → Bytes
no_config c = []

abbrev pub zero_quota : ℕ → ℤ
zero_quota bits = pos 0

abbrev pub prepared : Bytes → Bytes → Exec (Guest ℕ) Error Bytes
prepared name image = pure (codes "/rootfs")

abbrev pub web_params : ContainerCreateParams
web_params = record {
  name = codes "web";
  rootfs = codes "/srv/web";
  image = [];
  network = codes "host";
  ports = (record { host_port = 8080; container_port = 80; protocol = codes "tcp" }) ∷ [];
  resources = record { memory_max = pos 0; cpu_max = 0; pids_max = pos 0 };
  restart = [];
  env = [];
  volumes = [];
}

abbrev pub empty_agent : Agent ℕ
empty_agent = initial fresh_guest
