-- ===== src/Agent/Connection/Loop.antt =====
-- The agent from its start on (main.go): main with NewContainerManager.
use aetheria.Prelude.{ℕ, ◌≡◌, Bool, true, false, Option, none, List, [], ◌∷◌, Bytes, Exec}
use aetheria.Prelude.Int.{ℤ}
use aetheria.Agent.Types.{ContainerConfig, Error}
use aetheria.Agent.Os.{Os, Guest}
use aetheria.Agent.Container.{Agent}
use aetheria.Agent.PortForward.{Sockets}
use aetheria.Agent.Lifecycle.{Reach}
use aetheria.Agent.Lifecycle.Invariant.{IsValid}
use aetheria.Agent.Rpc.{Codec, Request, Response, Services}
use aetheria.Agent.Connection.{Vsock, End, serving, unreachable, gone, connect_to_host}
use aetheria.Agent.Connection.Answers.{Stopped, asked, numbers, Reach-append}

module _ (os : Os) (codec : Codec) (encode : ContainerConfig → Bytes) (quota_of : ℕ → ℤ)
    (prepare : Bytes → Bytes → Exec (Guest os.World) Error Bytes) (net : Sockets os.World)
    (services : Services os.World) (unmarshal : Bytes → Option Request)
    (marshal : Response → Option Bytes) (vsock : Vsock os.World) (read_id : Bytes → Option ℤ) where
  open os use {World}

  -- Over each connection every line is answered. The connections end before the last one only where no
  -- dial reached the host, or behind the lines before a request that panicked, from a state that the
  -- steps lead to from the first one.
  abbrev pub Answered : Agent World → End → List (List Bytes) → List (List Bytes) → Type 0
  Answered a serving [] [] = Unit
  Answered a serving [] (written ∷ more) = ⊥
  Answered a serving (lines ∷ conns) [] = ⊥
  Answered a serving (lines ∷ conns) (written ∷ more) =
      (numbers read_id written ≡ asked unmarshal lines) × Answered a serving conns more
  Answered a unreachable [] written = ⊥
  Answered a unreachable (lines ∷ conns) [] =
      (b : Agent World) × Reach os encode quota_of a b
      × ((connect_to_host vsock b.guest.world).0 ≡ none)
  Answered a unreachable (lines ∷ conns) (written ∷ more) =
      (numbers read_id written ≡ asked unmarshal lines) × Answered a unreachable conns more
  Answered a gone [] written = ⊥
  Answered a gone (lines ∷ conns) [] = ⊥
  Answered a gone (lines ∷ conns) (written ∷ []) =
      Stopped os codec encode quota_of prepare net services unmarshal marshal read_id a lines
        written
  Answered a gone (lines ∷ conns) (written ∷ w ∷ more) =
      (numbers read_id written ≡ asked unmarshal lines) × Answered a gone conns (w ∷ more)

  abbrev Leads : List (List Bytes) → Agent World → End × List (List Bytes) × Agent World → Type 0
  Leads conns a x =
      let (end, written, b) = x in Answered a end conns written × Reach os encode quota_of a b

  join :
      {a b c : Agent World}
      → Reach os encode quota_of a b
      → Reach os encode quota_of b c
      → Reach os encode quota_of a c
  join = Reach-append os codec encode quota_of prepare net services unmarshal marshal

  -- What main does behind NewContainerManager, which gave `started`: the loop, or nothing where the
  -- start of a container panicked
  abbrev pub Ran :
      Bool × Agent World → List (List Bytes) → End × List (List Bytes) × Agent World → Type 0
  Ran (true, a) conns (end, written, b) = Answered a end conns written × IsValid b.manager b.waiters
  Ran (false, a) conns (end, written, b) =
      (end ≡ gone) × (written ≡ []) × IsValid b.manager b.waiters
