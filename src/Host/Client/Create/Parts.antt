-- ===== src/Host/Client/Create/Parts.antt =====
-- The parts of cmdContainerCreate and cmdRemoveContainer against the sequences of their requests (main.go).
use aetheria.Prelude.{
  ◌≡◌, refl, Bool, true, false, Option, none, some, List, [], ◌∷◌, Bytes, codes, if◌then◌else◌,
  same, Result, ok, err, Exec, pure, ◌>>◌, ap, subst, ◌∙◌, Bool-cases, inl, inr,
}
use aetheria.Prelude.Int.{ℤ}
use aetheria.Agent.Types.{PortMapping}
use aetheria.Host.Daemon.{Response}
use aetheria.Host.Commands.{
  Call, Sent, Exit, image_pull, container_create, container_start, container_stop, container_remove,
  forwards_start, forwards_stop, must, reply, attempt, forward, stop_forwards, stop_all_forwards,
  stop_listed,
}
use aetheria.Host.Client.{
  Params, with_name, with_create, with_ports, ClientError, Socket, ClientJson, new_request,
  send_to_daemon,
}
use aetheria.Host.Client.Plain.{Console, print, eprint, die, accepted, replied, ask, action_command}
use aetheria.Host.Client.Create.{
  print_forwards, forwards_answer, start_forwards, silent_stop, stop_named, stop_all,
}
use aetheria.Host.Client.Create.Agreeing.{SameEnd, Agrees, Agrees-bind, Agrees-then_print}

abbrev pub method_of : Call → Bytes
method_of (image_pull name) = codes "image.pull"
method_of (container_create c) = codes "container.create"
method_of (container_start name) = codes "container.start"
method_of (container_stop name) = codes "container.stop"
method_of (container_remove name) = codes "container.remove"
method_of (forwards_start ports) = codes "_daemon.portforward.start"
method_of (forwards_stop ports) = codes "_daemon.portforward.stop"

abbrev pub params_of : Call → Params
params_of (image_pull name) = with_name name
params_of (container_create c) = with_create c
params_of (container_start name) = with_name name
params_of (container_stop name) = with_name name
params_of (container_remove name) = with_name name
params_of (forwards_start ports) = with_ports ports
params_of (forwards_stop ports) = with_ports ports

module _ {W : Type 0} (socket : Socket W) (codec : ClientJson) (text_of : ClientError → Bytes) where
  abbrev pub error_text : Result ClientError Response → Option Bytes
  error_text (err e) = none
  error_text (ok resp) = some resp.error

  -- A request of the sequence, by sendToDaemon
  abbrev pub send_call : Call → W → Option Bytes × W
  send_call call w =
      let (r, w') =
        send_to_daemon socket codec (new_request codec (method_of call) (params_of call)) w in
      (error_text r, w')

  accepted-SameEnd :
      (refusal : Bytes) (call : Call) (resp : Response) (c : Console W)
      → SameEnd
          (accepted socket codec text_of refusal resp c).0
          (reply send_call call (some resp.error))
        × ((accepted socket codec text_of refusal resp c).1.world ≡ c.world)
  unfolding die eprint
  accepted-SameEnd refusal call resp c = elim (Bool-cases (same resp.error [])) [
    | inl fine ↦ rw fine (tt, refl)
    | inr refused ↦ rw refused (refl, refl)
  ]

  replied-SameEnd :
      (failure refusal : Bytes) (call : Call) (r : Result ClientError Response × W) (c : Console W)
      → SameEnd
          (replied socket codec text_of failure refusal r c).0
          (reply send_call call (error_text r.0))
        × ((replied socket codec text_of failure refusal r c).1.world ≡ r.1)
  unfolding die eprint
  replied-SameEnd failure refusal call (err e, w) c = (refl, refl)
  replied-SameEnd failure refusal call (ok resp, w) c =
      accepted-SameEnd refusal call resp (record c { world = w })

  pub Agrees-ask :
      (failure refusal : Bytes) (call : Call)
      → Agrees
          (ask socket codec text_of failure refusal (method_of call) (params_of call))
          (must send_call call)
  unfolding ask must
  Agrees-ask failure refusal call = record {
    runs = λ c s h.
        let q = new_request codec (method_of call) (params_of call) in
        let (r, c') =
          ask socket codec text_of failure refusal (method_of call) (params_of call) c in
        subst
          (λ (w : W).
            SameEnd r (reply send_call call (error_text (send_to_daemon socket codec q w).0))
            × (c'.world ≡ (send_to_daemon socket codec q w).1))
          h (replied-SameEnd failure refusal call (send_to_daemon socket codec q c.world) c);
  }

  print_forwards_lem :
      (ps : List PortMapping) (c : Console W)
      → SameEnd (print_forwards socket codec text_of ps c).0 (ok tt)
        × ((print_forwards socket codec text_of ps c).1.world ≡ c.world)
  unfolding print_forwards print
  print_forwards_lem [] c = (tt, refl)
  print_forwards_lem (p ∷ ps) c = print_forwards_lem ps _

  forwards_answer_lem :
      (ps : List PortMapping) (r : Result ClientError Response × W) (c : Console W)
      → SameEnd (forwards_answer socket codec text_of ps r c).0 (ok tt)
        × ((forwards_answer socket codec text_of ps r c).1.world ≡ r.1)
  unfolding eprint
  forwards_answer_lem ps (err e, w) c = (tt, refl)
  forwards_answer_lem ps (ok resp, w) c = elim (Bool-cases (same resp.error [])) [
    | inl fine ↦ rw fine (print_forwards_lem ps (record c { world = w }))
    | inr refused ↦ rw refused (tt, refl)
  ]

  pub Agrees-forward :
      (ps : List PortMapping)
      → Agrees (start_forwards socket codec text_of ps) (forward send_call ps)
  unfolding start_forwards attempt
  Agrees-forward [] = record { runs = λ c s h. (tt, h) }
  Agrees-forward (p ∷ ps) = record {
    runs = λ c s h.
        let q = new_request codec (codes "_daemon.portforward.start") (with_ports (p ∷ ps)) in
        let (end, same_world) =
          forwards_answer_lem (p ∷ ps) (send_to_daemon socket codec q c.world) c in
        (end, same_world ∙ ap (λ (w : W). (send_to_daemon socket codec q w).1) h);
  }

  Agrees-stop_forwards :
      (ps : List PortMapping)
      → Agrees (silent_stop socket codec text_of ps) (stop_forwards send_call ps)
  unfolding silent_stop attempt
  Agrees-stop_forwards [] = record { runs = λ c s h. (tt, h) }
  Agrees-stop_forwards (p ∷ ps) = record {
    runs = λ c s h.
        let q = new_request codec (codes "_daemon.portforward.stop") (with_ports (p ∷ ps)) in
        (tt, ap (λ (w : W). (send_to_daemon socket codec q w).1) h);
  }

  Agrees-pure : Agrees {W = W} (pure tt) (pure tt)
  Agrees-pure = record { runs = λ c s h. (tt, h) }

  Agrees-if :
      (b : Bool) (m : Exec (Console W) ℤ Unit) (n : Exec (Sent W) Exit Unit)
      → Agrees m n
      → Agrees (if b then m else pure tt) (if b then n else pure tt)
  Agrees-if true m n h = h
  Agrees-if false m n h = Agrees-pure

  Agrees-stop_named :
      (name : Bytes) (l : List (Bytes × List PortMapping))
      → Agrees (stop_named socket codec text_of name l) (stop_all_forwards send_call name l)
  unfolding stop_named stop_all_forwards
  Agrees-stop_named name [] = Agrees-pure
  Agrees-stop_named name ((listed, ports) ∷ rest) =
      Agrees-bind _ _ _ _ (Agrees-if (same listed name) _ _ (Agrees-stop_forwards ports))
        (λ _. Agrees-stop_named name rest)

  pub Agrees-stop_all :
      (name : Bytes) (o : Option (List (Bytes × List PortMapping)))
      → Agrees (stop_all socket codec text_of name o) (stop_listed send_call name o)
  Agrees-stop_all name none = Agrees-pure
  Agrees-stop_all name (some l) = Agrees-stop_named name l

  pub Agrees-stop_then_remove :
      (name : Bytes)
      → Agrees
          (action_command socket codec text_of (codes "container.stop") name
            >> action_command socket codec text_of (codes "container.remove") name)
          (must send_call (container_stop name) >> must send_call (container_remove name))
  unfolding action_command
  Agrees-stop_then_remove name =
      Agrees-bind _ _ _ _ (Agrees-then_print _ _ _ (Agrees-ask _ _ (container_stop name)))
        (λ _. Agrees-then_print _ _ _ (Agrees-ask _ _ (container_remove name)))
