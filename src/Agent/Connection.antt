-- ===== src/Agent/Connection.antt =====
-- The agent's connection to the host (main.go): dialVsock, connectToHost, handleConnection,
-- sendResponse and the loop of main.
pub mod Dials
pub mod Answers
pub mod Loop
use aetheria.Prelude.{
  ℕ, zero, suc, ◌/◌, ◌%◌, Bool, true, false, Option, none, some, List, [], ◌∷◌, ◌++◌, Bytes, codes,
  if◌then◌else◌, same, Result, ok, err, Exec,
}
use aetheria.Prelude.Int.{ℤ, pos}
use aetheria.Agent.Types.{ContainerConfig, Error, invalid_json}
use aetheria.Agent.Os.{Os, Guest}
use aetheria.Agent.Container.{Agent, new_manager}
use aetheria.Agent.Lifecycle.Safety.{initial}
use aetheria.Agent.PortForward.{Sockets}
use aetheria.Agent.Rpc.{Codec, Request, Response, Services, handle_request}

abbrev pub host_cid : ℕ
host_cid = 2

abbrev pub agent_port : ℕ
agent_port = 1024

abbrev pub max_retries : ℕ
max_retries = 30

-- syscall.Socket, SYS_CONNECT with the bytes of an address, vsockConn.Close (or syscall.Close of a
-- socket that is not connected) and time.Sleep. A socket is its descriptor.
pub record Vsock (W : Type 0) : Type 0 where
  pub socket : W → Option ℕ × W
  pub connect : ℕ → Bytes → W → Bool × W
  pub close : ℕ → W → W
  pub sleep : W → W

-- The four bytes of a uint32, the lowest one first.
abbrev pub bytes_of : ℕ → Bytes → Bytes
bytes_of n rest = n % 256 ∷ (n / 256) % 256 ∷ (n / 65536) % 256 ∷ (n / 16777216) % 256 ∷ rest

-- sockaddr_vm: the family (AF_VSOCK is 40), two reserved bytes, the port, the CID and four zeros
unfoldable pub sockaddr : ℕ → ℕ → Bytes
sockaddr cid port = 40 ∷ 0 ∷ 0 ∷ 0 ∷ bytes_of port (bytes_of cid (0 ∷ 0 ∷ 0 ∷ 0 ∷ []))

module _ {W : Type 0} (vsock : Vsock W) where
  abbrev pub connected : ℕ → Bool × W → Option ℕ × W
  connected fd (true, w) = (some fd, w)
  connected fd (false, w) = (none, vsock.close fd w)

  abbrev pub with_socket : ℕ → ℕ → Option ℕ × W → Option ℕ × W
  with_socket cid port (none, w) = (none, w)
  with_socket cid port (some fd, w) = connected fd (vsock.connect fd (sockaddr cid port) w)

  -- dialVsock
  unfoldable pub dial_vsock : ℕ → ℕ → W → Option ℕ × W
  dial_vsock cid port w = with_socket cid port (vsock.socket w)

  abbrev pub or_again : (W → Option ℕ × W) → Option ℕ × W → Option ℕ × W
  or_again again (some fd, w) = (some fd, w)
  or_again again (none, w) = again (vsock.sleep w)

  unfoldable pub dials : ℕ → W → Option ℕ × W
  dials zero w = (none, w)
  dials (suc n) w = or_again (dials n) (dial_vsock host_cid agent_port w)

  -- connectToHost: `none` is where the program ends by log.Fatal.
  unfoldable pub connect_to_host : W → Option ℕ × W
  connect_to_host w = dials max_retries w

-- How far the agent got: through all of its connections, to a host that it could not reach, which is
-- log.Fatal, or to a panic
pub data End : Type 0 where
  serving unreachable gone : End

abbrev pub line_of : Option Bytes → List Bytes
line_of none = []
line_of (some text) = (text ++ codes "\n") ∷ []

-- sendResponse, as the list of its calls of conn.Write: an error of one is logged.
unfoldable pub send_response : (Response → Option Bytes) → Response → List Bytes
send_response marshal r = line_of (marshal r)

module _ (os : Os) (codec : Codec) (encode : ContainerConfig → Bytes) (quota_of : ℕ → ℤ)
    (prepare : Bytes → Bytes → Exec (Guest os.World) Error Bytes) (net : Sockets os.World)
    (services : Services os.World) (unmarshal : Bytes → Option Request)
    (marshal : Response → Option Bytes) where
  open os use {World}

  -- A line that is no request is answered too, under the number 0.
  abbrev pub answer : Option Request → Agent World → Option Response × Agent World
  answer none a = (some (record { outcome = err invalid_json; id = pos 0 }), a)
  answer (some q) a = handle_request os codec encode quota_of prepare net services q a

  abbrev pub written_of : Option Response → Option (List Bytes)
  written_of none = none
  written_of (some r) = some (send_response marshal r)

  -- `none` is where a panic ended the agent.
  unfoldable pub serve_line : Bytes → Agent World → Option (List Bytes) × Agent World
  serve_line line a =
      let (r, a') = answer (unmarshal line) a in
      if same line [] then (some [], a) else (written_of r, a')

  abbrev pub go_on :
      (Agent World → Bool × List Bytes × Agent World)
      → Option (List Bytes) × Agent World
      → Bool × List Bytes × Agent World
  go_on again (none, a) = (false, [], a)
  go_on again (some written, a) = let (alive, more, a') = again a in (alive, written ++ more, a')

  -- handleConnection, on the lines that the scanner yields until the connection ends or a line is
  -- longer than its buffer: whether the agent is still there, and what is written, in order
  unfoldable pub handle_connection : List Bytes → Agent World → Bool × List Bytes × Agent World
  handle_connection [] a = (true, [], a)
  handle_connection (line ∷ lines) a = go_on (handle_connection lines) (serve_line line a)

  module _ (vsock : Vsock World) where
    abbrev in_world : World → Agent World → Agent World
    in_world w a = record a { guest = record a.guest { world = w } }

    -- Behind a connection it is closed, and the next one is made, unless a panic ended the agent.
    abbrev pub behind :
        ℕ
        → (Agent World → End × List (List Bytes) × Agent World)
        → Bool × List Bytes × Agent World
        → End × List (List Bytes) × Agent World
    behind fd again (false, written, a) = (gone, written ∷ [], a)
    behind fd again (true, written, a) =
        let (end, more, a') = again (in_world (vsock.sleep (vsock.close fd a.guest.world)) a) in
        (end, written ∷ more, a')

    abbrev pub on_connection :
        List Bytes
        → Agent World
        → (Agent World → End × List (List Bytes) × Agent World)
        → Option ℕ × World
        → End × List (List Bytes) × Agent World
    on_connection lines a again (none, w) = (unreachable, [], in_world w a)
    on_connection lines a again (some fd, w) =
        behind fd again (handle_connection lines (in_world w a))

    -- The loop of main, for the lines that come over each connection
    unfoldable pub main_loop :
        List (List Bytes) → Agent World → End × List (List Bytes) × Agent World
    main_loop [] a = (serving, [], a)
    main_loop (lines ∷ later) a =
        on_connection lines a (main_loop later) (connect_to_host vsock a.guest.world)

    abbrev pub served_from :
        List (List Bytes) → Bool × Agent World → End × List (List Bytes) × Agent World
    served_from conns (true, a) = main_loop conns a
    served_from conns (false, a) = (gone, [], a)

    -- main, where it is not the first process of a container, for the lines that come over each connection
    unfoldable pub agent_main :
        (Bytes → Option ContainerConfig)
        → List (List Bytes)
        → Guest World
        → End × List (List Bytes) × Agent World
    agent_main decode conns g =
        served_from conns (new_manager os quota_of prepare decode (initial g))
