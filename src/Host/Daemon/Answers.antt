-- ===== src/Host/Daemon/Answers.antt =====
-- Which request an answer of the agent belongs to.
use aetheria.Prelude.{
  ◌+◌, ◌≡◌, refl, Bool, true, false, Option, none, some, List, [], ◌∷◌, ◌++◌, arith, Bytes,
  if◌then◌else◌, Result, ok, err, sym, ◌∙◌, Option-cases, Bool-cases, inl, inr, length,
  length-append,
}
use aetheria.Host.Daemon.{
  Request, Response, SendError, Wire, Daemon, exchange, send_encoded, send_to_agent, agent_read,
  not_connected,
}

-- The agent answers every line that is written to it, in order, and a read takes the oldest answer, or
-- nothing if its time is over before one comes.
pub record InOrder {W : Type 0} (wire : Wire W) (answer : Bytes → Bytes) (unread : W → List Bytes)
    : Type 0 where
  pub written :
      (line : Bytes) (w : W)
      → (wire.write line w).0 ≡ true
      → unread (wire.write line w).1 ≡ unread w ++ answer line ∷ []
  pub read :
      (w : W) (line : Bytes)
      → (wire.read_line w).0 ≡ some line
      → unread w ≡ line ∷ unread (wire.read_line w).1
  pub late : (w : W) → (wire.read_line w).0 ≡ none → unread (wire.read_line w).1 ≡ unread w

module _ {W : Type 0} (wire : Wire W) (encode : Request → Option Bytes)
    (decode : Bytes → Option Response) (answer : Bytes → Bytes) (unread : W → List Bytes)
    (laws : InOrder wire answer unread) where
  -- An exchange that fails in reading leaves its answer behind.
  exchange-late :
      (line : Bytes) (w : W)
      → (wire.write line w).0 ≡ true
      → (wire.read_line (wire.write line w).1).0 ≡ none
      → unread (exchange wire encode decode line w).1 ≡ unread w ++ answer line ∷ []
  unfolding exchange
  exchange-late line w sent timeout =
      let w₁ = (wire.write line w).1 in rw sent (laws.late w₁ timeout ∙ laws.written line w sent)

  exchange-oldest :
      (line : Bytes) (w : W) (r : Response)
      → (exchange wire encode decode line w).0 ≡ ok r
      → (oldest : Bytes) × (decode oldest ≡ some r)
        × (unread w ++ answer line ∷ [] ≡ oldest ∷ unread (exchange wire encode decode line w).1)
  unfolding exchange
  exchange-oldest line w r h =
      let w₁ = (wire.write line w).1 in
      elim (Bool-cases (wire.write line w).0) [
        | inr failed ↦ ground arith
        | inl sent ↦ elim (Option-cases (wire.read_line w₁).0) [
          | inl timeout ↦ ground arith
          | inr (oldest, came) ↦ (
            oldest,
            ground arith,
            rw sent (sym (laws.written line w sent) ∙ laws.read w₁ oldest came),
          )
        ]
      ]

  -- What an exchange of an encoded request yields
  abbrev Oldest : Bytes → Response → W → W → Type 0
  Oldest text r w w' =
      (oldest : Bytes) × (decode oldest ≡ some r)
      × (unread w ++ answer (text ++ b'\n' ∷ []) ∷ [] ≡ oldest ∷ unread w')

  send_encoded-Oldest :
      (o : Option Bytes) (d : Daemon W) (r : Response)
      → (send_encoded wire encode decode o d).0 ≡ ok r
      → (text : Bytes) × (o ≡ some text)
        × Oldest text r d.world (send_encoded wire encode decode o d).1.world
  send_encoded-Oldest none d r h = cc
  send_encoded-Oldest (some text) d r h =
      (text, refl, exchange-oldest (text ++ b'\n' ∷ []) d.world r h)

  -- What `send_to_agent` yields for a numbered request
  abbrev Sent : Request → Response → Daemon W → Daemon W → Type 0
  Sent q r d d' = (text : Bytes) × (encode q ≡ some text) × Oldest text r d.world d'.world

  if_ok :
      (P : Daemon W → Type 0) (b : Bool) (x y : Result SendError Response × Daemon W) (r : Response)
      → (x.0 ≡ ok r → P x.1)
      → (y.0 ≡ ok r → P y.1)
      → (if b then x else y).0 ≡ ok r
      → P (if b then x else y).1
  if_ok P true x y r hx hy h = hx h
  if_ok P false x y r hx hy h = hy h

  send_to_agent-Oldest :
      (q : Request) (d : Daemon W) (r : Response)
      → (send_to_agent wire encode decode q d).0 ≡ ok r
      → (text : Bytes) × (encode (record q { id = d.id_counter + 1 }) ≡ some text)
        × Oldest text r d.world (send_to_agent wire encode decode q d).1.world
  unfolding send_to_agent
  send_to_agent-Oldest q d r h =
      let numbered = record q { id = d.id_counter + 1 } in
      let counted : Daemon W = record d { id_counter = d.id_counter + 1 } in
      if_ok (Sent numbered r d) d.connected
        (send_encoded wire encode decode (encode numbered) counted) (err not_connected, d) r
        (send_encoded-Oldest (encode numbered) counted r) (λ e. cc) h

  -- With an agent that answers in order, and when no answer is left over, a request that succeeds
  -- gets the agent's answer to it, and leaves none over.
  pub send_to_agent-answer :
      (q : Request) (d : Daemon W) (r : Response)
      → unread d.world ≡ []
      → (send_to_agent wire encode decode q d).0 ≡ ok r
      → (text : Bytes) × (encode (record q { id = d.id_counter + 1 }) ≡ some text)
        × (decode (answer (text ++ b'\n' ∷ [])) ≡ some r)
        × (unread (send_to_agent wire encode decode q d).1.world ≡ [])
  send_to_agent-answer q d r none_left h =
      let (text, encoded, (oldest, decoded_as, order)) = send_to_agent-Oldest q d r h in
      (text, encoded, ground arith, ground arith)

  -- With an agent that answers in order, and when answers to earlier requests are left over, a
  -- request that succeeds gets the oldest of those, and as many are left over afterwards.
  pub send_to_agent-behind :
      (q : Request) (d : Daemon W) (r : Response) (x : Bytes) (xs : List Bytes)
      → unread d.world ≡ x ∷ xs
      → (send_to_agent wire encode decode q d).0 ≡ ok r
      → (decode x ≡ some r)
        × (length (unread (send_to_agent wire encode decode q d).1.world) ≡ length (unread d.world))
  send_to_agent-behind q d r x xs left h =
      let (text, encoded, (oldest, decoded_as, order)) = send_to_agent-Oldest q d r h in
      (ground arith, ground (arith, length-append xs (answer (text ++ b'\n' ∷ []) ∷ [])))

  -- With an agent that answers in order, a request that was written but whose answer is late ends
  -- in an error, and leaves that answer over.
  pub send_to_agent-late :
      (q : Request) (d : Daemon W) (text : Bytes)
      → d.connected ≡ true
      → encode (record q { id = d.id_counter + 1 }) ≡ some text
      → (wire.write (text ++ b'\n' ∷ []) d.world).0 ≡ true
      → (wire.read_line (wire.write (text ++ b'\n' ∷ []) d.world).1).0 ≡ none
      → ((send_to_agent wire encode decode q d).0 ≡ err agent_read)
        × (unread (send_to_agent wire encode decode q d).1.world
            ≡ unread d.world ++ answer (text ++ b'\n' ∷ []) ∷ [])
  unfolding send_to_agent exchange
  send_to_agent-late q d text up encoded sent timeout =
      let line = text ++ b'\n' ∷ [] in
      (ground arith, ground (arith, exchange-late line d.world sent timeout))
