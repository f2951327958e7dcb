-- ===== src/Host/Run.antt =====
-- `aetheria run` (main.go): cmdRun, from the environment to the loop that accepts the agent.
pub mod Reconnected
pub mod Clients
use aetheria.Prelude.{
  ℕ, Bool, true, false, ◌||◌, Option, none, some, List, [], ◌∷◌, ◌++◌, Bytes, codes, map,
  if◌then◌else◌, same, Result, ok, err, Exec, pure, raise, ◌>>=◌, ◌>>◌,
}
use aetheria.Prelude.Int.{ℤ, pos}
use aetheria.Host.Daemon.{Daemon, Request, Response, SendError, Wire, send_to_agent}
use aetheria.Host.Client.Plain.{Console, print, eprint, die}

-- The variables that cmdRun reads; one that is not set is empty.
pub record Environment : Type 0 where
  pub crosvm : Bytes
  pub kernel : Bytes
  pub rootfs : Bytes
  pub initrd : Bytes
  pub data_disk : Bytes

unfoldable pub is_incomplete : Environment → Bool
is_incomplete env = same env.crosvm [] || same env.kernel [] || same env.rootfs []

-- A dash in UTF-8
abbrev pub dash : Bytes
dash = codes " " ++ 226 ∷ 128 ∷ 148 ∷ codes " "

unfoldable pub missing_text : Bytes
missing_text =
    codes "Set environment variables:\n"
    ++ codes "  AETHERIA_CROSVM "
    ++ dash
    ++ codes "path to crosvm binary\n"
    ++ codes "  AETHERIA_KERNEL "
    ++ dash
    ++ codes "path to kernel Image\n"
    ++ codes "  AETHERIA_ROOTFS "
    ++ dash
    ++ codes "path to rootfs ext4 image\n"
    ++ codes "  AETHERIA_INITRD "
    ++ dash
    ++ codes "path to initramfs (optional)\n"

abbrev pub vsock_dir : Bytes
vsock_dir = codes "/tmp/aetheria-vsock-3"

abbrev pub agent_sock : Bytes
agent_sock = vsock_dir ++ codes "/port-1024"

abbrev pub pty_sock : Bytes
pty_sock = vsock_dir ++ codes "/port-1025"

abbrev pub port_forward_sock : Bytes
port_forward_sock = vsock_dir ++ codes "/port-1026"

abbrev pub daemon_sock : Bytes
daemon_sock = codes "/tmp/aetheria.sock"

abbrev pub pty_daemon_sock : Bytes
pty_daemon_sock = codes "/tmp/aetheria-pty.sock"

abbrev pub if_set : Bytes → Bytes → List Bytes
if_set name value = if same value [] then [] else name ∷ value ∷ []

-- The arguments of crosvm
unfoldable pub crosvm_args : Environment → List Bytes
crosvm_args env =
    map codes ("run" ∷ "--mem" ∷ "512" ∷ "--cpus" ∷ "2" ∷ "--block" ∷ [])
    ++ env.rootfs ∷ []
    ++ if_set (codes "--block") env.data_disk
    ++ map codes (
        "--serial" ∷ "type=stdout,hardware=serial,num=1" ∷ "-p"
        ∷ "root=/dev/vda rw console=tty0 console=ttyS0 earlycon=uart8250,mmio,0x3f8 loglevel=4"
        ∷ [])
    ++ if_set (codes "--initrd") env.initrd
    ++ env.kernel ∷ []

unfoldable pub crosvm_command : Environment → List Bytes
crosvm_command env = codes "sudo" ∷ codes "-n" ∷ env.crosvm ∷ crosvm_args env

-- os.MkdirAll and os.Remove, whose errors nobody looks at, net.Listen, exec.Cmd.Start with the text of
-- its error, and Process.Kill. A listener and a process are numbers.
pub record Host (W : Type 0) : Type 0 where
  pub mkdir_all : Bytes → W → W
  pub remove : Bytes → W → W
  pub listen : Bytes → W → Result Bytes ℕ × W
  pub start : List Bytes → W → Result Bytes ℕ × W
  pub kill : ℕ → W → W

-- What runs when cmdRun waits for the agent
pub record Running : Type 0 where
  pub agents : ℕ
  pub ptys : ℕ
  pub pty_clients : ℕ
  pub forwards : ℕ
  pub clients : ℕ
  pub vm : ℕ

module _ {W : Type 0} (host : Host W) where
  abbrev pub change : (W → W) → Exec (Console W) ℤ Unit
  change f c = (ok tt, record c { world = f c.world })

  abbrev pub or_exit : Bytes → Result Bytes ℕ × W → Exec (Console W) ℤ ℕ
  or_exit what (ok n, w) c = (ok n, record c { world = w })
  or_exit what (err e, w) c = die (what ++ codes ": " ++ e) (record c { world = w })

  abbrev pub listen_or_exit : Bytes → Bytes → Exec (Console W) ℤ ℕ
  listen_or_exit what path c = or_exit what (host.listen path c.world) c

  unfoldable pub clean_sockets : W → W
  clean_sockets w = host.remove pty_daemon_sock (
      host.remove daemon_sock (
        host.remove port_forward_sock
          (host.remove pty_sock (host.remove agent_sock (host.mkdir_all vsock_dir w)))))

  unfoldable pub open_and_start : Environment → Exec (Console W) ℤ Running
  open_and_start env = do
    change clean_sockets
    agents ← listen_or_exit (codes "agent listen") agent_sock
    ptys ← listen_or_exit (codes "pty listen") pty_sock
    pty_clients ← listen_or_exit (codes "pty daemon listen") pty_daemon_sock
    forwards ← listen_or_exit (codes "port forward listen") port_forward_sock
    clients ← listen_or_exit (codes "cli listen") daemon_sock
    print (codes "Starting VM...\n")
    vm ← (λ c. or_exit (codes "crosvm start") (host.start (crosvm_command env) c.world) c)
    pure (record {
      agents = agents;
      ptys = ptys;
      pty_clients = pty_clients;
      forwards = forwards;
      clients = clients;
      vm = vm;
    })

  -- cmdRun up to the goroutines that accept
  unfoldable pub start_run : Environment → Exec (Console W) ℤ Running
  start_run env =
      let refused : Exec (Console W) ℤ Running = eprint missing_text >> raise (pos 1) in
      if is_incomplete env then refused else open_and_start env

  -- What the wait for the first agent sees at one turn: an agent, a tick, or the end of the time
  pub data Turn : Type 0 where
    agent_came ticked time_over : Turn

  -- The loop that waits for the first agent, over its turns; `none` is where it still waits.
  unfoldable pub wait_agent : ℕ → List Turn → Console W → Option (Result ℤ (Unit {0}) × Console W)
  wait_agent vm [] c = none
  wait_agent vm (agent_came ∷ turns) c = some (ok tt, c)
  wait_agent vm (ticked ∷ turns) c = wait_agent vm turns c
  wait_agent vm (time_over ∷ turns) c = some (
    err (pos 1),
    record c {
      world = host.kill vm c.world;
      stdout = c.stdout ++ codes "\nAgent did not connect within 60 seconds\n";
    },
  )

-- net.Conn.Close, the assignment of agentConn, which is the connection that `Wire` writes to, and
-- bufio.NewReaderSize on it for agentReader, which `Wire` reads from.
pub record AgentConns (W : Type 0) : Type 0 where
  pub close : ℕ → W → W
  pub set_conn : ℕ → W → W
  pub new_reader : ℕ → W → W

-- The daemon with its agentConn
pub record Agents (W : Type 0) : Type 0 where
  pub daemon : Daemon W
  pub agent_conn : Option ℕ

abbrev pub ping_request : Request
ping_request = record { method = codes "ping"; params = []; id = 0 }

module _ {W : Type 0} (conns : AgentConns W) (wire : Wire W) (encode : Request → Option Bytes)
    (decode : Bytes → Option Response) where
  abbrev pub close_old_agent : Option ℕ → W → W
  close_old_agent none w = w
  close_old_agent (some old) w = conns.close old w

  -- The part under the lock
  unfoldable pub replace_agent : ℕ → Agents W → Agents W
  replace_agent conn a = record {
    daemon = record a.daemon {
      connected = true;
      world =
          conns.new_reader conn (conns.set_conn conn (close_old_agent a.agent_conn a.daemon.world));
    };
    agent_conn = some conn;
  }

  -- One turn of the loop that accepts agents: the answer to the ping. Behind one, the port forwards are
  -- restored; behind an error, the loop goes on.
  unfoldable pub accept_agent : ℕ → Agents W → Result SendError Response × Agents W
  accept_agent conn a =
      let replaced = replace_agent conn a in
      let (r, d) = send_to_agent wire encode decode ping_request replaced.daemon in
      (r, record replaced { daemon = d })

  -- The loop that accepts the command line, for the requests that its connections pass on to the agent, in
  -- the order in which their goroutines take the lock of sendToAgent
  unfoldable pub serve_clients :
      List Request → Daemon W → List (Result SendError Response) × Daemon W
  serve_clients [] d = ([], d)
  serve_clients (q ∷ qs) d =
      let (r, d₁) = send_to_agent wire encode decode q d in
      let (rs, d₂) = serve_clients qs d₁ in (r ∷ rs, d₂)
