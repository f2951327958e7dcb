-- ===== src/Host/Commands/Order.antt =====
-- Which requests a command makes, and which it makes only after others.
use aetheria.Prelude.{◌≡◌, ◌⊎◌, Option, List, [], ◌∷◌, ◌++◌, Bytes, Result, ok, err}
use aetheria.Agent.Types.{PortMapping}
use aetheria.Host.Commands.{Call, Exit, forwards_start, failed_send, refused}

-- The request that ended a command
abbrev pub failed_call : Exit → Call
failed_call (failed_send call) = call
failed_call (refused call error) = call

module _ {W : Type 0} (send : Call → W → Option Bytes × W) where
  -- How a chain of requests went on: all of them, and then the last ones whatever their answers were, or
  -- only the chain up to the request that failed
  abbrev pub Went : Result Exit (Unit {0}) → List Call → List Call → List Call → List Call → Type 0
  Went (ok _) [] last old calls = calls ≡ last ++ old
  Went (ok _) (c ∷ cs) last old calls = Went (ok tt) cs last (c ∷ old) calls
  Went (err e) [] last old calls = ⊥
  Went (err e) (c ∷ cs) last old calls =
      ((failed_call e ≡ c) × (calls ≡ c ∷ old)) ⊎ Went (err e) cs last (c ∷ old) calls

  abbrev pub forwards : List PortMapping → List Call
  forwards [] = []
  forwards (p ∷ ps) = forwards_start (p ∷ ps) ∷ []
