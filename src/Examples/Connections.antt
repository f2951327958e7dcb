-- ===== src/Examples/Connections.antt =====
-- Connections of the agent to the host.
use aetheria.Prelude.{
  ℕ, ◌+◌, ◌≡◌, refl, Bool, true, false, ◌&&◌, Option, none, some, List, [], ◌∷◌, ◌++◌, arith, Bytes,
  codes, if◌then◌else◌, ◌==◌, ltb, same, sym,
}
use aetheria.Prelude.Int.{ℤ, pos, negsuc}
use aetheria.Agent.Rpc.{Request, Response}
use aetheria.Agent.Connection.{
  Vsock, dial_vsock, connect_to_host, host_cid, agent_port, handle_connection,
}
use aetheria.Agent.Connection.Dials.{Descriptors, Opens, waited, connect_to_host-Opens}
use aetheria.Agent.Connection.Answers.{Serves, handle_connection-answers}
use aetheria.Agent.Types.{ContainerConfig}
use aetheria.Examples.Machine.{calm, no_config, zero_quota, prepared, empty_agent}
use aetheria.Examples.Requests.{web_codec, no_services, no_sockets, create_web}

-- The number of the next file, and which of the files before it are open
abbrev pub Table : Type 0
Table = ℕ × (ℕ → Bool)

abbrev pub in_table : ℕ → Table → Bool
in_table d (n, open_files) = ltb d n && open_files d

abbrev pub opened_in : Table → Table
opened_in (n, open_files) = (n + 1, λ d. if d == n then true else open_files d)

abbrev pub closed_in : ℕ → Table → Table
closed_in f (n, open_files) = (n, λ d. if d == f then false else open_files d)

pub opened_in-lem :
    (d : ℕ) (w : Table) → in_table d (opened_in w) ≡ (if d == w.0 then true else in_table d w)
opened_in-lem d (n, open_files) = ground arith

pub closed_in-lem :
    (d f : ℕ) (w : Table) → in_table d (closed_in f w) ≡ (if d == f then false else in_table d w)
closed_in-lem d f (n, open_files) = ground arith

pub fresh_in : (w : Table) → in_table w.0 w ≡ false
fresh_in (n, open_files) = ground arith

-- The host answers on the third socket and on later ones.
abbrev late_host : Vsock Table
late_host = record {
  socket = λ w. (some w.0, opened_in w);
  connect = λ fd address w. (ltb 1 fd, w);
  close = λ fd w. closed_in fd w;
  sleep = λ w. w;
}

late_host-Descriptors : Descriptors late_host in_table
late_host-Descriptors = record {
  refused = λ w h d. cc h;
  opened =
      λ w fd h. let number : w.0 ≡ fd = cc in rw (sym number) (fresh_in w, λ d. opened_in-lem d w);
  connecting = λ fd address w d. refl;
  closed = λ fd w d. closed_in-lem d fd w;
  sleeping = λ w d. refl;
}

abbrev no_files : Table
no_files = (0, λ d. false)

connect_to_host-Opens_example : Opens in_table no_files (connect_to_host late_host no_files)
connect_to_host-Opens_example =
    connect_to_host-Opens late_host in_table late_host-Descriptors no_files

third : (dial_vsock late_host host_cid agent_port (waited late_host 2 no_files)).0 ≡ some 2
unfolding dial_vsock waited
third = refl

-- A number is written as its sign and its size.
abbrev numbered : ℤ → Option Bytes
numbered (pos n) = some (0 ∷ n ∷ [])
numbered (negsuc n) = some (1 ∷ n ∷ [])

abbrev marshal : Response → Option Bytes
marshal r = numbered r.id

abbrev signed : Bool → ℕ → ℤ
signed true n = negsuc n
signed false n = pos n

abbrev read_number : Bytes → Option ℤ
read_number (sign ∷ n ∷ text) = some (signed (sign == 1) n)
read_number [] = none
read_number (sign ∷ []) = none

numbered-Encodes :
    (i : ℤ)
    → (text : Bytes) × (numbered i ≡ some text) × (read_number (text ++ codes "\n") ≡ some i)
numbered-Encodes (pos n) = (0 ∷ n ∷ [], refl, refl)
numbered-Encodes (negsuc n) = (1 ∷ n ∷ [], refl, refl)

abbrev unmarshal : Bytes → Option Request
unmarshal line = if same line (codes "create") then some create_web else none

abbrev lines : List Bytes
lines = codes "create" ∷ [] ∷ codes "no request" ∷ codes "create" ∷ []

handle_connection-answers_example :
    Serves calm web_codec no_config zero_quota prepared no_sockets no_services unmarshal marshal
      read_number empty_agent lines
      (handle_connection calm web_codec no_config zero_quota prepared no_sockets no_services
        unmarshal marshal lines empty_agent)
handle_connection-answers_example =
    handle_connection-answers calm web_codec no_config zero_quota prepared no_sockets no_services
      unmarshal marshal read_number (λ r. numbered-Encodes r.id) lines empty_agent

-- A host that answers at the first dial
abbrev prompt_host : Vsock ℕ
prompt_host = record {
  socket = λ w. (some w, w + 1);
  connect = λ fd address w. (true, w);
  close = λ fd w. w;
  sleep = λ w. w;
}

abbrev no_decode : Bytes → Option ContainerConfig
no_decode text = none
