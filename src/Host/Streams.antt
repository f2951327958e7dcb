-- ===== src/Host/Streams.antt =====
-- The daemon's streams (main.go): readLineRaw, bridgePTYStreams, bridgePortForwards and
-- handlePortForwardConn.
pub mod Headers
pub mod Lost
pub mod Ports
use aetheria.Prelude.{
  ℕ, zero, suc, ◌+◌, Bool, true, false, Option, none, some, List, [], ◌∷◌, ◌++◌, Bytes, codes,
  if◌then◌else◌, ltb, ◌==◌, length, same, Result, ok, err, Dict, lookup, insert, erase,
}
use aetheria.Text.{trim_space}
use aetheria.Text.Decimal.{decimal}

-- readLineRaw, on what the connection yields until it ends or fails, with what was read before: the
-- line, `none` for an error, and what is left on the connection.
unfoldable pub read_line_raw : Bytes → Bytes → Option Bytes × Bytes
read_line_raw buf [] = (none, [])
read_line_raw buf (b ∷ input) =
    let longer = read_line_raw (buf ++ b ∷ []) input in
    if b == b'\n'
    then (some (trim_space buf), input)
    else if ltb 256 (length buf + 1)
    then (none, input)
    else longer

-- The connections of the agent that wait for their other end, by their header; a connection is a number.
pub record Waiting (W : Type 0) : Type 0 where
  pub world : W
  pub pending : Dict ℕ

-- net.Conn.Close, the copying in both directions until one ends, and time.Sleep.
pub record Conns (W : Type 0) : Type 0 where
  pub close : ℕ → W → W
  pub bridge : ℕ → ℕ → W → W
  pub sleep : W → W

module _ {W : Type 0} (conns : Conns W) where
  abbrev pub close_conn : ℕ → Waiting W → Waiting W
  close_conn c s = record s { world = conns.close c s.world }

  abbrev pub keep_stream : ℕ → Option Bytes → Waiting W → Waiting W
  keep_stream c none s = close_conn c s
  keep_stream c (some key) s = record s { pending = insert key c s.pending }

  -- A connection of the agent, for a shell or for a forwarded port
  unfoldable pub accept_stream : ℕ → Bytes → Waiting W → Waiting W
  accept_stream c input s = keep_stream c (read_line_raw [] input).0 s

  unfoldable pub take_stream : Bytes → Waiting W → Option ℕ × Waiting W
  take_stream key s = elim (lookup key s.pending) [
    | none ↦ (none, s)
    | some c ↦ (some c, record s { pending = erase key s.pending })
  ]

  -- Both ends are closed when one direction has ended.
  unfoldable pub bridged : ℕ → ℕ → Waiting W → Waiting W
  bridged a c s = record s { world = conns.close c (conns.close a (conns.bridge a c s.world)) }

  abbrev pub bridge_taken : ℕ → Option ℕ × Waiting W → Waiting W
  bridge_taken c (none, s) = close_conn c s
  bridge_taken c (some a, s) = bridged a c s

  abbrev pub with_name : ℕ → Option Bytes → Waiting W → Waiting W
  with_name c none s = close_conn c s
  with_name c (some name) s = bridge_taken c (take_stream name s)

  -- A connection of the command line for a shell
  unfoldable pub accept_client : ℕ → Bytes → Waiting W → Waiting W
  accept_client c input s = with_name c (read_line_raw [] input).0 s

  module _ (others : ℕ → Waiting W → Waiting W) where
    abbrev pub or_later :
        (Waiting W → Option ℕ × Waiting W) → Option ℕ × Waiting W → Option ℕ × Waiting W
    or_later again (some c, s) = (some c, s)
    or_later again (none, s) = again s

    -- At most `n` looks, with a wait behind each; `others` is what happens in the waits.
    unfoldable pub poll : ℕ → Bytes → Waiting W → Option ℕ × Waiting W
    poll zero key s = (none, s)
    poll (suc n) key s =
        or_later (λ s'. poll n key (others n (record s' { world = conns.sleep s'.world })))
          (take_stream key s)

    -- handlePortForwardConn: `ask` sends the request to the agent, and tells whether it succeeded.
    unfoldable pub handle_port_forward_conn : (ℕ → W → Bool × W) → ℕ → ℕ → Waiting W → Waiting W
    handle_port_forward_conn ask tcp host_port s =
        let (granted, w) = ask host_port s.world in
        let s₁ = record s { world = w } in
        let served = bridge_taken tcp (poll 50 (decimal host_port) s₁) in
        if granted then served else close_conn tcp s₁
