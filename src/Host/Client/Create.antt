-- ===== src/Host/Client/Create.antt =====
-- `aetheria create` and `aetheria rm` with what they print (main.go): cmdContainerCreate and
-- cmdRemoveContainer.
pub mod Agreeing
pub mod Parts
pub mod Refines
use aetheria.Prelude.{
  ℕ, Bool, Option, none, some, List, [], ◌∷◌, ◌++◌, Bytes, codes, if◌then◌else◌, same, Result, ok,
  err, Exec, pure, ◌>>=◌, ◌>>◌,
}
use aetheria.Prelude.Int.{ℤ}
use aetheria.Text.Decimal.{decimal}
use aetheria.Agent.Types.{PortMapping}
use aetheria.Host.Options.{CreateOptions}
use aetheria.Host.Daemon.{Response}
use aetheria.Host.Commands.{call_of}
use aetheria.Host.Client.{
  Params, no_params, with_name, with_create, with_ports, ClientError, Socket, ClientJson,
  new_request, send_to_daemon,
}
use aetheria.Host.Client.Plain.{Console, print, eprint, ask, action_command}

-- The line of one port, with an arrow in UTF-8
unfoldable pub show_forward : PortMapping → Bytes
show_forward p =
    codes "Port forward: 0.0.0.0:"
    ++ decimal p.host_port
    ++ codes " "
    ++ 226 ∷ 134 ∷ 146 ∷ []
    ++ codes " container:"
    ++ decimal p.container_port
    ++ codes "\n"

module _ {W : Type 0} (socket : Socket W) (codec : ClientJson) (text_of : ClientError → Bytes) where
  unfoldable pub print_forwards : List PortMapping → Exec (Console W) ℤ Unit
  print_forwards [] = pure tt
  print_forwards (p ∷ ps) = print (show_forward p) >> print_forwards ps

  abbrev pub forwards_answer :
      List PortMapping → Result ClientError Response × W → Exec (Console W) ℤ Unit
  forwards_answer ports (err e, w) c =
      eprint (codes "port forward: " ++ text_of e ++ codes "\n") (record c { world = w })
  forwards_answer ports (ok resp, w) c =
      let c' = record c { world = w } in
      if same resp.error []
      then print_forwards ports c'
      else eprint (codes "port forward: " ++ resp.error ++ codes "\n") c'

  unfoldable pub start_forwards : List PortMapping → Exec (Console W) ℤ Unit
  start_forwards [] c = (ok tt, c)
  start_forwards (p ∷ ps) c =
      forwards_answer (p ∷ ps)
        (send_to_daemon socket codec
          (new_request codec (codes "_daemon.portforward.start") (with_ports (p ∷ ps))) c.world)
        c

  abbrev pub said : Bytes → Bytes → Params → Exec (Console W) ℤ Response
  said prefix method p = ask socket codec text_of prefix prefix method p

  -- cmdContainerCreate
  unfoldable pub create_command : (ℕ → Bool) → CreateOptions → Exec (Console W) ℤ Unit
  create_command cpu_positive o = do
    print (codes "Pulling " ++ o.image ++ codes "...\n")
    said (codes "pull: ") (codes "image.pull") (with_name o.image)
    print
        (codes "Creating container " ++ o.name ++ codes " (network=" ++ o.network ++ codes ")...\n")
    said (codes "create: ") (codes "container.create") (with_create (call_of cpu_positive o))
    print (codes "Starting " ++ o.name ++ codes "...\n")
    said (codes "start: ") (codes "container.start") (with_name o.name)
    start_forwards o.ports
    print (
        codes "Container "
        ++ o.name
        ++ codes " is running. Use: aetheria shell "
        ++ o.name
        ++ codes "\n")

  -- A request whose answer is not looked at
  unfoldable pub silent_stop : List PortMapping → Exec (Console W) ℤ Unit
  silent_stop [] c = (ok tt, c)
  silent_stop (p ∷ ps) c =
      let q = new_request codec (codes "_daemon.portforward.stop") (with_ports (p ∷ ps)) in
      (ok tt, record c { world = (send_to_daemon socket codec q c.world).1 })

  unfoldable pub stop_named : Bytes → List (Bytes × List PortMapping) → Exec (Console W) ℤ Unit
  stop_named name [] = pure tt
  stop_named name ((listed, ports) ∷ rest) =
      (if same listed name then silent_stop ports else pure tt) >> stop_named name rest

  abbrev pub stop_all : Bytes → Option (List (Bytes × List PortMapping)) → Exec (Console W) ℤ Unit
  stop_all name none = pure tt
  stop_all name (some containers) = stop_named name containers

  -- `parse_listed` is the decoding of the list: names and ports, `none` for an error.
  module _ (parse_listed : Bytes → Option (List (Bytes × List PortMapping))) where
    abbrev pub listed_of : Result ClientError Response → Option (List (Bytes × List PortMapping))
    listed_of (err e) = none
    listed_of (ok resp) = if same resp.error [] then parse_listed resp.result else none

    unfoldable pub list_containers : W → Option (List (Bytes × List PortMapping)) × W
    list_containers w =
        let (r, w') =
          send_to_daemon socket codec (new_request codec (codes "container.list") no_params) w in
        (listed_of r, w')

    -- cmdRemoveContainer
    unfoldable pub rm_command : Bytes → Exec (Console W) ℤ Unit
    rm_command name c =
        let (containers, w) = list_containers c.world in
        (stop_all name containers
            >> (action_command socket codec text_of (codes "container.stop") name
                >> action_command socket codec text_of (codes "container.remove") name))
          (record c { world = w })
