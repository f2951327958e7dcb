-- ===== src/Host/Run/Reconnected.antt =====
-- What a new connection of the agent does to the daemon (main.go): the loop of cmdRun that accepts agents.
use aetheria.Prelude.{
  ℕ, ◌+◌, ◌≡◌, refl, true, Option, none, some, List, [], ◌∷◌, ◌++◌, Bytes, ok, err, ◌∙◌, ap,
}
use aetheria.Host.Daemon.{Request, Response, Wire, send_to_agent, agent_read}
use aetheria.Host.Daemon.Answers.{InOrder, send_to_agent-answer, send_to_agent-late}
use aetheria.Host.Run.{
  AgentConns, Agents, replace_agent, close_old_agent, ping_request, accept_agent,
}

-- What is on its way over the current connection, and what the current reader has in its buffer. A
-- connection that was just accepted brings nothing, and the buffer of the reader that is in use stays as
-- it is; a new reader is empty, and takes nothing from the connection yet.
pub record Fresh {W : Type 0} (conns : AgentConns W) (on_way buffered : W → List Bytes)
    : Type 0 where
  pub nothing_sent : (c : ℕ) (w : W) → on_way (conns.set_conn c w) ≡ []
  pub same_buffer : (c : ℕ) (w : W) → buffered (conns.set_conn c w) ≡ buffered w
  pub empty_buffer : (c : ℕ) (w : W) → buffered (conns.new_reader c w) ≡ []
  pub same_way : (c : ℕ) (w : W) → on_way (conns.new_reader c w) ≡ on_way w

module _ {W : Type 0} (conns : AgentConns W) (wire : Wire W) (encode : Request → Option Bytes)
    (decode : Bytes → Option Response) (answer : Bytes → Bytes) (on_way buffered : W → List Bytes)
    (laws : InOrder wire answer (λ w. buffered w ++ on_way w))
    (fresh : Fresh conns on_way buffered) where
  -- The answers that come next
  abbrev pub unread : W → List Bytes
  unread w = buffered w ++ on_way w

  replace_agent-unread :
      (conn : ℕ) (a : Agents W)
      → unread (replace_agent conns wire encode decode conn a).daemon.world ≡ []
  unfolding replace_agent
  replace_agent-unread conn a =
      let w = close_old_agent conns wire encode decode a.agent_conn a.daemon.world in
      rw (fresh.empty_buffer conn (conns.set_conn conn w))
        (fresh.same_way conn (conns.set_conn conn w) ∙ fresh.nothing_sent conn w)

  -- However many answers were left over, on the old connection and in the buffer of its reader: when a new
  -- connection is accepted and answers the ping, none is left over, and the next request that succeeds gets
  -- the agent's answer to it. The agent answers in order, and sends nothing over a connection unasked.
  pub accept_agent-answer :
      (conn : ℕ) (a : Agents W) (pong : Response) (q : Request) (r : Response)
      → (accept_agent conns wire encode decode conn a).0 ≡ ok pong
      → let d = (accept_agent conns wire encode decode conn a).1.daemon in
        (send_to_agent wire encode decode q d).0 ≡ ok r
        → (unread d.world ≡ [])
          × ((text : Bytes) × (encode (record q { id = d.id_counter + 1 }) ≡ some text)
              × (decode (answer (text ++ b'\n' ∷ [])) ≡ some r))
  unfolding accept_agent
  accept_agent-answer conn a pong q r ping_ok sent =
      let d₀ = (replace_agent conns wire encode decode conn a).daemon in
      let d = (send_to_agent wire encode decode ping_request d₀).1 in
      let (_, _, _, clean) =
        send_to_agent-answer wire encode decode answer unread laws ping_request d₀ pong
          (replace_agent-unread conn a) ping_ok in
      let (text, encoded, read_as, _) =
        send_to_agent-answer wire encode decode answer unread laws q d r clean sent in
      (clean, (text, encoded, read_as))

  -- Where the new connection takes the ping but answers it too late, the loop goes on with this
  -- connection: the daemon counts as connected, and the answer to the ping is left over on it.
  pub accept_agent-late :
      (conn : ℕ) (a : Agents W) (text : Bytes)
      → let d₀ = (replace_agent conns wire encode decode conn a).daemon in
        let line = text ++ b'\n' ∷ [] in
        encode (record ping_request { id = d₀.id_counter + 1 }) ≡ some text
        → (wire.write line d₀.world).0 ≡ true
        → (wire.read_line (wire.write line d₀.world).1).0 ≡ none
        → let (r, a') = accept_agent conns wire encode decode conn a in
          (r ≡ err agent_read)
          × (a'.agent_conn ≡ some conn)
          × (unread a'.daemon.world ≡ answer line ∷ [])
  unfolding accept_agent replace_agent
  accept_agent-late conn a text encoded written late =
      let d₀ = (replace_agent conns wire encode decode conn a).daemon in
      let (failed, left) =
        send_to_agent-late wire encode decode answer unread laws ping_request d₀ text refl encoded
          written late in
      (
        failed,
        refl,
        left
            ∙ ap (λ (l : List Bytes). l ++ answer (text ++ b'\n' ∷ []) ∷ [])
                (replace_agent-unread conn a),
      )
