-- ===== src/Host/Commands/Removal.antt =====
-- `aetheria rm` and the agent that answers it: cmdRemoveContainer with Stop and Remove of container.go.
use aetheria.Prelude.{
  ◌≡◌, ◌≢◌, refl, Option, some, List, [], ◌∷◌, arith, Bytes, same, Result, ok, err, continue, ◌>>◌,
  bind-ok, ap, sym, ◌∙◌, Bool-cases, inl, inr,
}
use aetheria.Agent.Types.{Error, PortMapping}
use aetheria.Agent.Os.{Os}
use aetheria.Agent.Container.{Agent, stop, remove}
use aetheria.Agent.Lifecycle.Safety.{stop_then_remove}
use aetheria.Host.Commands.{
  Call, container_stop, container_remove, Exit, Sent, reply, must, stop_listed, remove_command,
}

module _ (os : Os) (text_of : Error → Bytes) where
  open os use {World}

  -- The error text of the response to a request
  abbrev pub error_of : Result Error (Unit {0}) × Agent World → Option Bytes × Agent World
  error_of (ok u, a) = (some [], a)
  error_of (err e, a) = (some (text_of e), a)

  module _ (other : Call → Agent World → Option Bytes × Agent World) where
    -- Requests to stop and to remove that reach the agent, with no other step between them; `other` is
    -- what becomes of every other request.
    abbrev pub answering : Call → Agent World → Option Bytes × Agent World
    answering (container_stop name) a = error_of (stop os name a)
    answering (container_remove name) a = error_of (remove os name a)
    answering call a = other call a

    error_of-world : (r : Result Error (Unit {0}) × Agent World) → (error_of r).1 ≡ r.1
    error_of-world (ok u, a) = refl
    error_of-world (err e, a) = refl

    accepted_ok :
        (call : Call) (r : Result Error (Unit {0}) × Agent World) (u : Unit {0})
        → ((e : Error) → text_of e ≢ [])
        → reply answering call (error_of r).0 ≡ ok u
        → r.0 ≡ ok tt
    accepted_ok call (ok tt, a) u worded h = refl
    accepted_ok call (err e, a) u worded h = elim (Bool-cases (same (text_of e) [])) [
      | inl empty ↦ absurd (worded e (ground (arith, empty)))
      | inr said ↦ ground (arith, said)
    ]

    then_removed :
        (name : Bytes) (calls : List Call) (x : Result Error (Unit {0}) × Agent World)
        (u : Unit {0})
        → ((e : Error) → text_of e ≢ [])
        → let s : Sent (Agent World) = record { world = (error_of x).1; calls = calls } in
          (continue
              (reply answering (container_stop name) (error_of x).0)
              (λ _. must answering (container_remove name))
              s).0
            ≡ ok u
          → (continue x.0 (λ _. remove os name) x.1).0 ≡ ok tt
    unfolding must
    then_removed name calls (ok v, a) u worded h =
        accepted_ok (container_remove name) (remove os name a) u worded (ground (arith, h))
    then_removed name calls (err e, a) u worded h = elim (Bool-cases (same (text_of e) [])) [
      | inl empty ↦ absurd (worded e (ground (arith, empty)))
      | inr said ↦ ground (arith, said)
    ]

    both_sent :
        (name : Bytes) (s : Sent (Agent World)) (u : Unit {0})
        → ((e : Error) → text_of e ≢ [])
        → ((must answering (container_stop name) >> must answering (container_remove name)) s).0
          ≡ ok u
        → ((stop os name >> remove os name) s.world).0 ≡ ok tt
    unfolding must
    both_sent name s u worded h =
        then_removed name (container_stop name ∷ s.calls) (stop os name s.world) u worded h

    rm_fails :
        (listing : Agent World → Option (List (Bytes × List PortMapping)) × Agent World)
        (name : Bytes) (s : Sent (Agent World)) (u : Unit {0})
        → ((e : Error) → text_of e ≢ [])
        → (remove_command answering listing name s).0 ≢ ok u
    unfolding remove_command
    rm_fails listing name s u worded h =
        let (containers, w) = listing s.world in
        let listed = stop_listed answering name containers in
        let rest = must answering (container_stop name) >> must answering (container_remove name) in
        let s₁ : Sent (Agent World) = record s { world = w } in
        let (_, _, e) = bind-ok listed (λ _. rest) s₁ u h in
        let sent =
          both_sent name (listed s₁).1 u worded
            (sym (ap (λ (x : Result Exit (Unit {0}) × Sent (Agent World)). x.0) e) ∙ h) in
        stop_then_remove os name (listed s₁).1.world sent

-- `aetheria rm` never succeeds: whatever the list of the containers says and in whichever state the agent
-- is, the request to stop is refused, or the request to remove, which follows at once, because the
-- container still counts as running. Every error has a text, and no other step of the agent comes
-- between the two.
pub remove_command-fails :
    (os : Os) (text_of : Error → Bytes)
    (other : Call → Agent os.World → Option Bytes × Agent os.World)
    (listing : Agent os.World → Option (List (Bytes × List PortMapping)) × Agent os.World)
    (name : Bytes) (s : Sent (Agent os.World))
    → ((e : Error) → text_of e ≢ [])
    → (remove_command (answering os text_of other) listing name s).0 ≢ ok tt
remove_command-fails os text_of other listing name s worded =
    rm_fails os text_of other listing name s tt worded
