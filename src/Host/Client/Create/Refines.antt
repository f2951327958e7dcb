-- ===== src/Host/Client/Create/Refines.antt =====
-- `aetheria create` and `aetheria rm` against the sequence of their requests (main.go), and what `rm`
-- comes to with the agent of container.go.
use aetheria.Prelude.{
  ℕ, ◌≡◌, ◌≢◌, refl, Bool, Option, List, [], Bytes, Result, ok, err, ◌>>◌, ap, sym, subst,
}
use aetheria.Prelude.Int.{ℤ, pos}
use aetheria.Agent.Types.{PortMapping}
use aetheria.Host.Options.{CreateOptions}
use aetheria.Host.Commands.{
  Call, Sent, Exit, image_pull, container_create, container_start, container_stop, container_remove,
  forwards_start, forwards_stop, call_of, must, container_create_command, stop_listed,
  remove_command,
}
use aetheria.Host.Client.{ClientError, Socket, ClientJson}
use aetheria.Host.Client.Plain.{Console}
use aetheria.Host.Client.Create.{create_command, list_containers, rm_command}
use aetheria.Host.Client.Create.Parts.{
  send_call, Agrees-ask, Agrees-forward, Agrees-stop_all, Agrees-stop_then_remove,
}
use aetheria.Host.Client.Create.Agreeing.{
  SameEnd, Agrees, Agrees-bind, Agrees-print, Agrees-then_print,
}
use aetheria.Agent.Types.{Error}
use aetheria.Agent.Os.{Os}
use aetheria.Agent.Container.{Agent, stop, remove}
use aetheria.Host.Commands.Removal.{error_of, answering, remove_command-fails}

module _ {W : Type 0} (socket : Socket W) (codec : ClientJson) (text_of : ClientError → Bytes) where
  -- `aetheria create`, which prints, makes the requests of the sequence for it, and leaves the world as
  -- that does: it ends with exit code 1 where the sequence ends with a failure, and else with 0.
  pub create_command-Agrees :
      (cpu_positive : ℕ → Bool) (o : CreateOptions)
      → Agrees
          (create_command socket codec text_of cpu_positive o)
          (container_create_command (send_call socket codec text_of) cpu_positive o)
  unfolding create_command container_create_command
  create_command-Agrees cpu_positive o =
      let pull = image_pull o.image in
      let create = container_create (call_of cpu_positive o) in
      let start = container_start o.name in
      let ports = Agrees-then_print (λ _. _) _ _ (Agrees-forward socket codec text_of o.ports) in
      Agrees-print _ _ _ (
        Agrees-bind _ _ _ _ (Agrees-ask socket codec text_of _ _ pull) (λ _. Agrees-print _ _ _ (
          Agrees-bind _ _ _ _ (Agrees-ask socket codec text_of _ _ create) (λ _.
            Agrees-print _ _ _
              (Agrees-bind _ _ _ _ (Agrees-ask socket codec text_of _ _ start) (λ _. ports))))))

  -- `aetheria rm`, which prints, makes the requests of the sequence for it, and ends in the same way.
  pub rm_command-Agrees :
      (parse_listed : Bytes → Option (List (Bytes × List PortMapping))) (name : Bytes)
      → Agrees (rm_command socket codec text_of parse_listed name) (
          remove_command
            (send_call socket codec text_of)
            (list_containers socket codec text_of parse_listed)
            name)
  unfolding rm_command remove_command
  rm_command-Agrees parse_listed name =
      let listing = list_containers socket codec text_of parse_listed in
      let rest =
        must (send_call socket codec text_of) (container_stop name)
        >> must (send_call socket codec text_of) (container_remove name) in
      let after = λ (y : Option (List (Bytes × List PortMapping)) × W) (s : Sent W).
        (stop_listed (send_call socket codec text_of) name y.0 >> rest)
          (record s { world = y.1 }) in
      record {
        runs = λ c s h.
            let x = listing c.world in
            let (r, c') = rm_command socket codec text_of parse_listed name c in
            let agrees : Agrees _ (stop_listed (send_call socket codec text_of) name x.0 >> rest) =
              Agrees-bind _ _ _ _ (Agrees-stop_all socket codec text_of name x.0)
                (λ _. Agrees-stop_then_remove socket codec text_of name) in
            subst
              (λ (y : Option (List (Bytes × List PortMapping)) × W).
                SameEnd r (after y s).0 × (c'.world ≡ (after y s).1.world))
              (ap listing h)
              (agrees.runs (record c { world = x.1 }) (record s { world = x.1 }) refl);
      }

SameEnd-failed :
    (x : Result ℤ (Unit {0})) (y : Result Exit (Unit {0}))
    → SameEnd x y
    → y ≢ ok tt
    → x ≡ err (pos 1)
SameEnd-failed (ok a) (ok tt) end failed = absurd (failed refl)
SameEnd-failed (ok a) (err e) end failed = absurd end
SameEnd-failed (err code) (ok u) end failed = absurd end
SameEnd-failed (err code) (err e) end failed = ap (λ (n : ℤ). err n) end

answering_same :
    (os : Os) (error_name : Error → Bytes)
    (send : Call → Agent os.World → Option Bytes × Agent os.World)
    → ((n : Bytes) (a : Agent os.World)
        → send (container_stop n) a ≡ error_of os error_name (stop os n a))
    → ((n : Bytes) (a : Agent os.World)
        → send (container_remove n) a ≡ error_of os error_name (remove os n a))
    → (call : Call) (a : Agent os.World) → answering os error_name send call a ≡ send call a
answering_same os error_name send stops removes (container_stop n) a = sym (stops n a)
answering_same os error_name send stops removes (container_remove n) a = sym (removes n a)
answering_same os error_name send stops removes (image_pull n) a = refl
answering_same os error_name send stops removes (container_create n) a = refl
answering_same os error_name send stops removes (container_start n) a = refl
answering_same os error_name send stops removes (forwards_start n) a = refl
answering_same os error_name send stops removes (forwards_stop n) a = refl

-- `aetheria rm` ends with exit code 1, whatever the list of the containers says and in whichever state
-- the agent is: it stops and removes in requests that reach the agent with no other step between them,
-- and every error of the agent has a text.
pub rm_command-exit :
    (os : Os) (error_name : Error → Bytes) (socket : Socket (Agent os.World)) (codec : ClientJson)
    (text_of : ClientError → Bytes)
    (parse_listed : Bytes → Option (List (Bytes × List PortMapping))) (name : Bytes)
    (c : Console (Agent os.World))
    → ((n : Bytes) (a : Agent os.World)
        → send_call socket codec text_of (container_stop n) a
          ≡ error_of os error_name (stop os n a))
    → ((n : Bytes) (a : Agent os.World)
        → send_call socket codec text_of (container_remove n) a
          ≡ error_of os error_name (remove os n a))
    → ((e : Error) → error_name e ≢ [])
    → (rm_command socket codec text_of parse_listed name c).0 ≡ err (pos 1)
rm_command-exit os error_name socket codec text_of parse_listed name c stops removes worded =
    let send = send_call socket codec text_of in
    let listing = list_containers socket codec text_of parse_listed in
    let s : Sent (Agent os.World) = record { world = c.world; calls = [] } in
    let as_agent : answering os error_name send ≡ send =
      λ i. λ call a. answering_same os error_name send stops removes call a i in
    let fails =
      subst
        (λ (f : Call → Agent os.World → Option Bytes × Agent os.World).
          (remove_command f listing name s).0 ≢ ok tt)
        as_agent (remove_command-fails os error_name send listing name s worded) in
    let (end, _) = (rm_command-Agrees socket codec text_of parse_listed name).runs c s refl in
    SameEnd-failed _ _ end fails
