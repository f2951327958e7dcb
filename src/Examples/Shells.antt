-- ===== src/Examples/Shells.antt =====
-- Shells in containers.
use aetheria.Prelude.{
  ◌≡◌, refl, true, false, none, some, [], ◌∷◌, codes, ◌==◌, bytes_dec, ℕ_discrete, sym, ok, lookup,
  insert, erase,
}
use aetheria.Agent.Types.{ShellSession}
use aetheria.Agent.Os.{Guest}
use aetheria.Agent.Connection.{Vsock}
use aetheria.Agent.Shell.{
  Pty, ShellParams, pty_port, handle_shell, start_shell, open_pty, open_slave_of, close_stale,
  end_stream, resize,
}
use aetheria.Agent.Shell.Files.{OpenFiles}
use aetheria.Agent.Shell.Sessions.{Outcome, handle_shell-Outcome, end_stream-orphans}
use aetheria.Examples.Connections.{
  Table, in_table, opened_in, closed_in, opened_in-lem, closed_in-lem, fresh_in,
}
use aetheria.Examples.Requests.{web_manager}

abbrev terminals : Pty Table
terminals = record {
  open_file = λ path w. (some w.0, opened_in w);
  unlock = λ f w. (true, w);
  number = λ f w. (some 0, w);
  set_size = λ f rows cols w. w;
  close = λ f w. closed_in f w;
  start = λ argv f w. (some 900, w);
  write = λ c b w. w;
}

abbrev no_vsock : Vsock Table
no_vsock = record {
  socket = λ w. (none, w);
  connect = λ fd address w. (false, w);
  close = λ fd w. w;
  sleep = λ w. w;
}

terminals-OpenFiles : OpenFiles terminals in_table
terminals-OpenFiles = record {
  refused = λ path w h d. cc h;
  opened = λ path w f h.
      let number : w.0 ≡ f = cc in rw (sym number) (fresh_in w, λ d. opened_in-lem d w);
  unlocking = λ f w d. refl;
  numbering = λ f w d. refl;
  sizing = λ f rows cols w d. refl;
  closed = λ f w d. closed_in-lem d f w;
  starting = λ argv f w d. refl;
}

abbrev in_web : ShellParams
in_web = record { name = codes "web"; rows = 50; cols = 120 }

-- A shell runs in the container already, on the terminal that is file 0.
abbrev old : ShellSession
old = record {
  container_name = codes "web";
  pid = 7;
  network = codes "host";
  master = 0;
  process = 800;
}

abbrev new : ShellSession
new = record {
  container_name = codes "web";
  pid = 7;
  network = codes "host";
  master = 1;
  process = 900;
}

abbrev with_shell : Guest Table
with_shell = record {
  world = (1, λ d. d == 0);
  containers_dir = codes "/var/aetheria/containers";
  images_dir = codes "/mnt/host/aetheria-data/images";
  bridge_done = false;
  next_ip = 2;
  oci_image_paths = [];
  auth_tokens = [];
  sessions = (codes "web", old) ∷ [];
}

handle_shell-Outcome_example :
    Outcome in_table (codes "web") with_shell (handle_shell terminals web_manager in_web with_shell)
handle_shell-Outcome_example =
    handle_shell-Outcome terminals in_table terminals-OpenFiles web_manager in_web with_shell

made : (handle_shell terminals web_manager in_web with_shell).0 ≡ ok pty_port
unfolding handle_shell start_shell open_pty open_slave_of close_stale resize lookup insert erase
    bytes_dec ℕ_discrete
made = refl

stored :
    lookup (codes "web") (handle_shell terminals web_manager in_web with_shell).1.sessions
    ≡ some new
unfolding handle_shell start_shell open_pty open_slave_of close_stale resize lookup insert erase
    bytes_dec ℕ_discrete
stored = refl

end_stream-orphans_example :
    let g' =
      end_stream terminals no_vsock old 5
        (handle_shell terminals web_manager in_web with_shell).1 in
    (lookup (codes "web") g'.sessions ≡ none)
    × (in_table 1 g'.world ≡ true)
    × (in_table 1 (handle_shell terminals web_manager in_web g').1.world ≡ true)
end_stream-orphans_example =
    end_stream-orphans terminals no_vsock in_table terminals-OpenFiles (λ c w d. refl) web_manager
      web_manager in_web in_web with_shell old new 5 pty_port refl refl made stored refl
