-- ===== src/Host/Streams/Ports.antt =====
-- The data channel of a forwarded port, from the agent's header (portforward.go) to the client that waits
-- for it (main.go): handlePortForwardConnect, bridgePortForwards and handlePortForwardConn.
use aetheria.Prelude.{
  ℕ, suc, ◌≤◌, ◌<◌, ◌≡◌, refl, Option, none, some, [], ◌++◌, arith, Bytes, codes, length,
  append_assoc, ◌∙◌, ap, lookup-insert_self,
}
use aetheria.Text.Decimal.{IsDigit-Lacks, decimal, decimal-IsDigit, length-decimal}
use aetheria.Host.Values.Sizes.{digits-ArePlain, trim_space-ArePlain}
use aetheria.Host.Streams.{
  Waiting, Conns, read_line_raw, keep_stream, accept_stream, take_stream, poll, or_later,
}
use aetheria.Host.Streams.Headers.{read_line_raw-header}

read_line_raw-decimal :
    (port : ℕ) (rest : Bytes)
    → port < 65536
    → read_line_raw [] ((decimal port ++ codes "\n") ++ rest) ≡ (some (decimal port), rest)
read_line_raw-decimal port rest fits =
    let few : length (decimal port) ≤ 5 = length-decimal 4 port (omega arith) in
    ap (read_line_raw []) (append_assoc (decimal port) (codes "\n") rest)
    ∙ read_line_raw-header (decimal port) rest
        (IsDigit-Lacks b'\n' (decimal port) refl (decimal-IsDigit port)) (omega (arith, few))
    ∙ ap (λ (t : Bytes). (some t, rest))
        (trim_space-ArePlain (decimal port) (digits-ArePlain (decimal port) (decimal-IsDigit port)))

module _ {W : Type 0} (conns : Conns W) where
  take-keep :
      (c : ℕ) (key : Bytes) (s : Waiting W)
      → (take_stream conns key (keep_stream conns c (some key) s)).0 ≡ some c
  unfolding take_stream
  take-keep c key s = ground (arith, lookup-insert_self key c s.pending)

  found_now :
      (again : Waiting W → Option ℕ × Waiting W) (others : ℕ → Waiting W → Waiting W) (c : ℕ)
      (r : Option ℕ × Waiting W)
      → r.0 ≡ some c
      → (or_later conns others again r).0 ≡ some c
  found_now again others c (none, s) h = cc h
  found_now again others c (some d, s) h = h

  poll-take :
      (others : ℕ → Waiting W → Waiting W) (n c : ℕ) (key : Bytes) (s : Waiting W)
      → (take_stream conns key s).0 ≡ some c
      → (poll conns others (suc n) key s).0 ≡ some c
  unfolding poll
  poll-take others n c key s h = found_now _ others c (take_stream conns key s) h

-- The connection that the agent dials for a port below 65536, with the header that it writes, is the
-- one that a client of this port finds at its first look, whatever the bytes behind the header are.
pub accept_stream-poll :
    {W : Type 0} (conns : Conns W) (others : ℕ → Waiting W → Waiting W) (c port : ℕ) (rest : Bytes)
    (s : Waiting W)
    → port < 65536
    → (poll conns others 50
        (decimal port)
        (accept_stream conns c ((decimal port ++ codes "\n") ++ rest) s)).0
      ≡ some c
unfolding accept_stream
accept_stream-poll conns others c port rest s fits =
    let header = ap (λ (r : Option Bytes × Bytes). r.0) (read_line_raw-decimal port rest fits) in
    let key = decimal port in
    rw header
      (poll-take conns others 49 c key (keep_stream conns c (some key) s) (take-keep conns c key s))
