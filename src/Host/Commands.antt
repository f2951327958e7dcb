-- ===== src/Host/Commands.antt =====
-- The requests of `aetheria create`, `start` and `rm`: cmdContainerCreate, cmdContainerAction and
-- cmdRemoveContainer.
pub mod Order
pub mod Removal
use aetheria.Prelude.{
  ℕ, Bool, true, false, ◌||◌, Option, none, some, List, [], ◌∷◌, ◌++◌, Bytes, codes, if◌then◌else◌,
  same, Result, ok, err, Exec, pure, raise, ◌>>=◌, ◌>>◌,
}
use aetheria.Prelude.Int.{ℤ, is_positive}
use aetheria.Agent.Types.{PortMapping, VolumeMount, ResourceLimits}
use aetheria.Host.Options.{CreateOptions}

-- What `createParams` holds; `resources` is left out where no limit is set.
pub record CreateCall : Type 0 where
  pub name : Bytes
  pub image : Bytes
  pub network : Bytes
  pub restart : Bytes
  pub ports : List PortMapping
  pub env : List Bytes
  pub volumes : List VolumeMount
  pub resources : Option ResourceLimits

-- The requests, each by its method and parameters
pub data Call : Type 0 where
  image_pull container_start container_stop container_remove : Bytes → Call
  container_create : CreateCall → Call
  forwards_start forwards_stop : List PortMapping → Call

-- The command ends with exit code 1 and this text.
pub data Exit : Type 0 where
  failed_send : Call → Exit
  refused : Call → Bytes → Exit

-- `cpu_positive` is `cpuMax > 0` on the bits of a float64.
unfoldable pub resources_of : (ℕ → Bool) → CreateOptions → Option ResourceLimits
resources_of cpu_positive o =
    if is_positive o.memory_max || cpu_positive o.cpu_max || is_positive o.pids_max
    then some (record { memory_max = o.memory_max; cpu_max = o.cpu_max; pids_max = o.pids_max })
    else none

abbrev pub call_of : (ℕ → Bool) → CreateOptions → CreateCall
call_of cpu_positive o = record {
  name = o.name;
  image = o.image;
  network = o.network;
  restart = o.restart;
  ports = o.ports;
  env = o.env;
  volumes = o.volumes;
  resources = resources_of cpu_positive o;
}

-- sendToDaemon: `none` is an error of the connection, and else the error text of the response, which
-- is empty where there is none. The state holds the requests that were sent, the last one first.
pub record Sent (W : Type 0) : Type 0 where
  pub world : W
  pub calls : List Call

module _ {W : Type 0} (send : Call → W → Option Bytes × W) where
  abbrev pub reply : Call → Option Bytes → Result Exit (Unit {0})
  reply call none = err (failed_send call)
  reply call (some error) = if same error [] then ok tt else err (refused call error)

  -- A request whose failure ends the command
  unfoldable pub must : Call → Exec (Sent W) Exit Unit
  must call s =
      let (r, w) = send call s.world in (reply call r, record { world = w; calls = call ∷ s.calls })

  -- A request whose failure is only printed
  unfoldable pub attempt : Call → Exec (Sent W) Exit Unit
  attempt call s =
      let (r, w) = send call s.world in (ok tt, record { world = w; calls = call ∷ s.calls })

  abbrev pub forward : List PortMapping → Exec (Sent W) Exit Unit
  forward [] = pure tt
  forward (p ∷ ps) = attempt (forwards_start (p ∷ ps))

  -- cmdContainerCreate
  unfoldable pub container_create_command : (ℕ → Bool) → CreateOptions → Exec (Sent W) Exit Unit
  container_create_command cpu_positive o = do
    must (image_pull o.image)
    must (container_create (call_of cpu_positive o))
    must (container_start o.name)
    forward o.ports

  -- cmdContainerAction is `must` of its request, and prints the result.

  abbrev pub stop_forwards : List PortMapping → Exec (Sent W) Exit Unit
  stop_forwards [] = pure tt
  stop_forwards (p ∷ ps) = attempt (forwards_stop (p ∷ ps))

  -- The forwards of each container of this name that the list holds, by name and ports
  unfoldable pub stop_all_forwards :
      Bytes → List (Bytes × List PortMapping) → Exec (Sent W) Exit Unit
  stop_all_forwards name [] = pure tt
  stop_all_forwards name ((listed, ports) ∷ rest) =
      (if same listed name then stop_forwards ports else pure tt) >> stop_all_forwards name rest

  abbrev pub stop_listed :
      Bytes → Option (List (Bytes × List PortMapping)) → Exec (Sent W) Exit Unit
  stop_listed name none = pure tt
  stop_listed name (some containers) = stop_all_forwards name containers

  -- cmdRemoveContainer: `listing` is the request for the containers and what its response decodes to,
  -- `none` for any failure.
  unfoldable pub remove_command :
      (W → Option (List (Bytes × List PortMapping)) × W) → Bytes → Exec (Sent W) Exit Unit
  remove_command listing name s =
      let (containers, w) = listing s.world in
      (stop_listed name containers >> (must (container_stop name) >> must (container_remove name)))
        (record s { world = w })
