-- ===== src/Host/Run/Clients.antt =====
-- Which answers the clients of the daemon get when several are connected (main.go): the loop of cmdRun that
-- accepts the command line.
use aetheria.Prelude.{
  ℕ, ◌+◌, ◌≡◌, refl, Option, some, List, [], ◌∷◌, ◌++◌, arith, Bytes, Result, ok, err, subst,
  Bool-cases, Option-cases, inl, inr,
}
use aetheria.Host.Daemon.{Daemon, Request, Response, SendError, Wire, send_to_agent}
use aetheria.Host.Daemon.Answers.{InOrder, send_to_agent-answer}
use aetheria.Host.Run.{AgentConns, serve_clients}

-- Every request succeeded.
abbrev pub AllOk : List (Result SendError Response) → Type 0
AllOk [] = Unit
AllOk (ok r ∷ rs) = AllOk rs
AllOk (err e ∷ rs) = ⊥

module _ {W : Type 0} (conns : AgentConns W) (wire : Wire W) (encode : Request → Option Bytes)
    (decode : Bytes → Option Response) (answer : Bytes → Bytes) (unread : W → List Bytes)
    (laws : InOrder wire answer unread) where
  -- Each response is the agent's answer to the request at its place, which has the next number.
  abbrev pub OwnAnswers : ℕ → List Request → List (Result SendError Response) → Type 0
  OwnAnswers n [] [] = Unit
  OwnAnswers n (q ∷ qs) (ok r ∷ rs) =
      ((text : Bytes) × (encode (record q { id = n + 1 }) ≡ some text)
        × (decode (answer (text ++ b'\n' ∷ [])) ≡ some r))
      × OwnAnswers (n + 1) qs rs
  OwnAnswers n _ _ = ⊥

  send_to_agent-counter :
      (q : Request) (d : Daemon W) (r : Response)
      → (send_to_agent wire encode decode q d).0 ≡ ok r
      → (send_to_agent wire encode decode q d).1.id_counter ≡ d.id_counter + 1
  unfolding send_to_agent
  send_to_agent-counter q d r h = elim (Bool-cases d.connected) [
    | inr off ↦ ground (arith, off)
    | inl on ↦ elim (Option-cases (encode (record q { id = d.id_counter + 1 }))) [
      | inl none_made ↦ ground (arith, on, none_made)
      | inr (text, made) ↦ ground (arith, on, made)
    ]
  ]

  serve_first :
      (q : Request) (qs : List Request) (d : Daemon W) (x : Result SendError Response)
      → (send_to_agent wire encode decode q d).0 ≡ x
      → unread d.world ≡ []
      → let (rs, d') =
          serve_clients conns wire encode decode qs (send_to_agent wire encode decode q d).1 in
        (AllOk rs
          → unread (send_to_agent wire encode decode q d).1.world ≡ []
          → OwnAnswers (send_to_agent wire encode decode q d).1.id_counter qs rs)
        → AllOk (x ∷ rs)
        → OwnAnswers d.id_counter (q ∷ qs) (x ∷ rs)
  serve_first q qs d (err e) h clean rest all = absurd all
  serve_first q qs d (ok r) h clean rest all =
      let (text, encoded, read_as, still_clean) =
        send_to_agent-answer wire encode decode answer unread laws q d r clean h in
      let rs =
        (serve_clients conns wire encode decode qs (send_to_agent wire encode decode q d).1).0 in
      (
        (text, encoded, read_as),
        subst (λ (n : ℕ). OwnAnswers n qs rs) (send_to_agent-counter q d r h)
            (rest all still_clean),
      )

  -- With an agent that answers in order, and when no answer is left over: in whichever order the clients'
  -- requests take the lock, if all of them succeed, each client gets the agent's answer to its own one.
  pub serve_clients-OwnAnswers :
      (qs : List Request) (d : Daemon W)
      → AllOk (serve_clients conns wire encode decode qs d).0
      → unread d.world ≡ []
      → OwnAnswers d.id_counter qs (serve_clients conns wire encode decode qs d).0
  unfolding serve_clients
  serve_clients-OwnAnswers [] d all clean = tt
  serve_clients-OwnAnswers (q ∷ qs) d all clean =
      serve_first q qs d (send_to_agent wire encode decode q d).0 refl clean
        (serve_clients-OwnAnswers qs (send_to_agent wire encode decode q d).1) all
