-- ===== src/Agent/Rpc/Entries.antt =====
-- Which requests take a container off the map (main.go, container.go): handleRequest and HandleRPC.
use aetheria.Prelude.{
  ℕ, ◌≡◌, refl, ap, ◌∙◌, Bool, true, false, Option, none, some, List, Bytes, codes, arith, same,
  if◌then◌else◌, Result, Exec, Preserves, preserves_rules, lookup, lookup-insert,
}
use aetheria.Prelude.Int.{ℤ}
use aetheria.Agent.Types.{ContainerConfig, ContainerCreateParams, ContainerExecParams, Error}
use aetheria.Agent.Os.{Os, Guest}
use aetheria.Agent.Container.{
  Agent, Pending, create, create_insert, check_new, register, start, start_begin, start_commit,
  launch, spawned, launched, stop, stop_at, exec, exec_at, logs, find, on_guest, lift,
}
use aetheria.Agent.PortForward.{Sockets}
use aetheria.Agent.Rpc.{
  Codec, Request, Payload, Services, container_rpc, port_forward_rpc, connect_in, shell_in,
  dispatch, handle_request, with_params, run_command,
}

-- Every entry of the first state's map is in the second one's, and leads to the same container.
abbrev pub HasEntries : {W : Type 0} → Agent W → Agent W → Type 0
HasEntries a b =
    (name : Bytes) (q : ℕ)
    → lookup name a.manager.containers ≡ some q
    → lookup name b.manager.containers ≡ some q

module _ (os : Os) (encode : ContainerConfig → Bytes) (quota_of : ℕ → ℤ) (a₀ : Agent os.World) where
  open os use {World}

  abbrev Has : Agent World → Type 0
  Has = HasEntries a₀

  abbrev SameMap : Agent World → Agent World → Type 0
  SameMap a b = b.manager.containers ≡ a.manager.containers

  same-Has :
      {A : Type 0} (m : Exec (Agent World) Error A)
      → ((a : Agent World) → SameMap a (m a).1)
      → Preserves Has m
  same-Has m h = record { after = λ a has name q e. ap (λ d. lookup name d) (h a) ∙ has name q e }

  if-Has :
      {A : Type 0} (b : Bool) (m n : Exec (Agent World) Error A)
      → Preserves Has m
      → Preserves Has n
      → Preserves Has (if b then m else n)
  if-Has true m n hm hn = hm
  if-Has false m n hm hn = hn

  with_params-Has :
      {P : Type 0} (p : Option P) (f : P → Exec (Agent World) Error Payload)
      → ((x : P) → Preserves Has (f x))
      → Preserves Has (with_params p f)
  with_params-Has none f h = record { after = λ a r. r }
  with_params-Has (some x) f h = h x

  here-Has :
      {A : Type 0} (f : Agent World → Result Error A)
      → Preserves Has (λ (a : Agent World). (f a, a))
  here-Has f = record { after = λ a r. r }

  on_guest-Has : {A : Type 0} (m : Exec (Guest World) Error A) → Preserves Has (on_guest m)
  on_guest-Has m = same-Has (on_guest m) (λ a. refl)

  lift-Has : {A : Type 0} (r : Result Error A) → Preserves Has (lift r)
  lift-Has r = record { after = λ a h. h }

  check_new-Has : (name : Bytes) → Preserves Has (check_new name)
  check_new-Has name = same-Has (check_new name) (λ a. unfold check_new in ground arith)

  find-Has : (name : Bytes) → Preserves Has (find name)
  find-Has name = same-Has (find name) (λ a. unfold find in ground arith)

  insert-keeps :
      (p : ContainerCreateParams) (rootfs : Bytes) (a : Agent World) (name : Bytes) (q : ℕ)
      → lookup name a.manager.containers ≡ some q
      → lookup name (create_insert os encode p rootfs a).1.manager.containers ≡ some q
  unfolding create_insert register
  insert-keeps p rootfs a name q h =
      ground (arith, lookup-insert name p.name a.manager.next a.manager.containers)

  create_insert-Has :
      (p : ContainerCreateParams) (rootfs : Bytes)
      → Preserves Has (create_insert os encode p rootfs)
  create_insert-Has p rootfs = record {
    after = λ a has name q e. insert-keeps p rootfs a name q (has name q e);
  }

  start_begin-Has : (name : Bytes) → Preserves Has (start_begin name)
  start_begin-Has name = same-Has (start_begin name) (λ a. unfold start_begin find in ground arith)

  spawned-SameMap :
      (p : ℕ) (name : Bytes) (r : Option ℕ) (a : Agent World)
      → SameMap a (spawned os quota_of p name r a).1
  unfolding spawned launched
  spawned-SameMap p name none a = refl
  spawned-SameMap p name (some pid) a = refl

  launch-SameMap :
      (p : ℕ) (name : Bytes) (a : Agent World) → SameMap a (launch os quota_of p name a).1
  unfolding launch
  launch-SameMap p name a = spawned-SameMap p name _ _

  start_commit-SameMap :
      (s : Pending) (a : Agent World) → SameMap a (start_commit os quota_of s a).1
  unfolding start_commit
  start_commit-SameMap s a = ground (arith, launch-SameMap s.ptr s.name a)

  start_commit-Has : (s : Pending) → Preserves Has (start_commit os quota_of s)
  start_commit-Has s = same-Has (start_commit os quota_of s) (start_commit-SameMap s)

  stop_at-Has : (name : Bytes) (p : ℕ) → Preserves Has (stop_at os name p)
  stop_at-Has name p = same-Has (stop_at os name p) (λ a. unfold stop_at in ground arith)

  stop-Has : (name : Bytes) → Preserves Has (stop os name)
  unfolding stop
  stop-Has name = search (preserves_rules, find-Has, stop_at-Has) depth 12

  exec_at-Has : (p : ContainerExecParams) (ptr : ℕ) → Preserves Has (exec_at os p ptr)
  exec_at-Has p ptr = same-Has (exec_at os p ptr) (λ a. unfold exec_at in ground arith)

  exec-Has : (p : ContainerExecParams) → Preserves Has (exec os p)
  unfolding exec
  exec-Has p = search (preserves_rules, find-Has, exec_at-Has) depth 12

  logs-Has : (name : Bytes) (lines : ℕ) → Preserves Has (logs os name lines)
  logs-Has name lines = same-Has (logs os name lines) (λ a. unfold logs find in ground arith)

  run_command-Has : (c : Bytes × List Bytes) → Preserves Has (run_command os c)
  unfolding run_command
  run_command-Has c = search (preserves_rules, on_guest-Has, if-Has) depth 12

  module _ (prepare : Bytes → Bytes → Exec (Guest World) Error Bytes) where
    create-Has : (p : ContainerCreateParams) → Preserves Has (create os encode prepare p)
    unfolding create
    create-Has p =
        search (preserves_rules, lift-Has, check_new-Has, on_guest-Has, create_insert-Has) depth 12

    start-Has : (name : Bytes) → Preserves Has (start os quota_of prepare name)
    unfolding start
    start-Has name =
        search (preserves_rules, start_begin-Has, on_guest-Has, start_commit-Has) depth 12

  module _ (codec : Codec) (prepare : Bytes → Bytes → Exec (Guest World) Error Bytes)
      (net : Sockets World) (services : Services World) (method : Bytes)
      (other : same method (codes "container.remove") ≡ false) where
    -- The case of `container.remove` is not taken.
    skips-Has :
        (m n : Exec (Agent World) Error Payload)
        → Preserves Has n
        → Preserves Has (if same method (codes "container.remove") then m else n)
    skips-Has m n h = rw other h

    container_rpc-Has :
        (params : Bytes)
        → Preserves Has (container_rpc os codec encode quota_of prepare method params)
    unfolding container_rpc
    container_rpc-Has params =
        search
          (
            preserves_rules, skips-Has, if-Has, with_params-Has, create-Has, start-Has, stop-Has,
            exec-Has, logs-Has, here-Has,
          )
          depth 24

    connect_in-Has : (port : ℕ) → Preserves Has (connect_in os net port)
    connect_in-Has port = same-Has (connect_in os net port) (λ a. refl)

    port_forward_rpc-Has :
        (params : Bytes) → Preserves Has (port_forward_rpc os codec net method params)
    unfolding port_forward_rpc
    port_forward_rpc-Has params =
        search (preserves_rules, if-Has, with_params-Has, connect_in-Has, here-Has) depth 24

    shell_in-Has :
        (params : Bytes)
        → Preserves Has (shell_in os codec encode quota_of prepare net services params)
    shell_in-Has params =
        same-Has (shell_in os codec encode quota_of prepare net services params)
          (λ a. unfold shell_in in refl)

    dispatch-Has :
        (params : Bytes)
        → Preserves Has (dispatch os codec encode quota_of prepare net services method params)
    unfolding dispatch
    dispatch-Has params =
        search
          (
            preserves_rules, if-Has, with_params-Has, on_guest-Has, shell_in-Has, container_rpc-Has,
            port_forward_rpc-Has, run_command-Has,
          )
          depth 24

-- Only a request for `container.remove` takes a container away: behind any other request, whatever it
-- holds and whatever the operating system and the handlers of shells, images and `info` do, each name that
-- was in the map is still there and leads to the same container.
pub handle_request-HasEntries :
    (os : Os) (codec : Codec) (encode : ContainerConfig → Bytes) (quota_of : ℕ → ℤ)
    (prepare : Bytes → Bytes → Exec (Guest os.World) Error Bytes) (net : Sockets os.World)
    (services : Services os.World) (q : Request) (a : Agent os.World)
    → same q.method (codes "container.remove") ≡ false
    → HasEntries a (handle_request os codec encode quota_of prepare net services q a).1
unfolding handle_request
handle_request-HasEntries os codec encode quota_of prepare net services q a other =
    (dispatch-Has os encode quota_of a codec prepare net services q.method other q.params).after a
      (λ name p e. e)
