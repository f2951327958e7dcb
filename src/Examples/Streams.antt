-- ===== src/Examples/Streams.antt =====
-- The daemon's streams, and `aetheria rm`.
use aetheria.Prelude.{
  ℕ, ◌+◌, ◌≡◌, ◌≢◌, refl, Option, none, some, List, [], ◌∷◌, ◌++◌, arith, Bytes, codes, lookup,
}
use aetheria.Text.{trim_space}
use aetheria.Agent.Types.{Error, PortMapping}
use aetheria.Agent.Container.{Agent}
use aetheria.Host.Streams.{Conns, Waiting, read_line_raw, accept_stream, take_stream, poll}
use aetheria.Text.Decimal.{decimal}
use aetheria.Host.Streams.Ports.{accept_stream-poll}
use aetheria.Host.Streams.Lost.{later, here, taken, accept_stream-lost}
use aetheria.Host.Commands.{Call, Sent}
use aetheria.Examples.Machine.{empty_agent}

-- The state counts the connections that are closed.
abbrev conns : Conns ℕ
conns = record { close = λ c w. w + 1; bridge = λ a c w. w; sleep = λ w. w }

abbrev nothing : Waiting ℕ
nothing = record { world = 0; pending = [] }

accept_stream-poll_example :
    (poll conns
      (λ i s. s)
      50
      (decimal 8080)
      (accept_stream conns 3
        ((decimal 8080 ++ codes "\n") ++ codes "HTTP/1.1 200 OK\r\n")
        nothing)).0
    ≡ some 3
accept_stream-poll_example =
    accept_stream-poll conns (λ i s. s) 3 8080 (codes "HTTP/1.1 200 OK\r\n") nothing (omega arith)

abbrev header : Bytes
header = codes "8080\n"

read : (read_line_raw [] header).0 ≡ some (codes "8080")
unfolding read_line_raw trim_space
read = refl

abbrev two_came : Waiting ℕ
two_came = accept_stream conns 4 header (accept_stream conns 3 header nothing)

no_pending : (k : Bytes) → lookup k nothing.pending ≢ some 3
unfolding lookup
no_pending k h = cc h

-- Two clients connect to port 8080 at once: the first to look gets connection 4, and none is left.
accept_stream-lost_example :
    (two_came.world ≡ 0)
    × ((take_stream conns (codes "8080") (take_stream conns (codes "8080") two_came).1).0 ≢ some 3)
accept_stream-lost_example =
    accept_stream-lost conns 3 4 (codes "8080") header header nothing
      (take_stream conns (codes "8080") two_came).1 (codes "8080") refl no_pending read read
      (later here (taken (codes "8080")))

abbrev worded : Error → Bytes
worded e = codes "error"

abbrev refuses : Call → Agent ℕ → Option Bytes × Agent ℕ
refuses call a = (none, a)

abbrev lists : Agent ℕ → Option (List (Bytes × List PortMapping)) × Agent ℕ
lists a = (some ((codes "web", []) ∷ []), a)

abbrev start : Sent (Agent ℕ)
start = record { world = empty_agent; calls = [] }
