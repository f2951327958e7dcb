-- ===== src/Agent/Rpc/Steps.antt =====
-- Every request that the agent handles is a sequence of the container manager's steps.
use aetheria.Prelude.{
  ℕ, ◌≡◌, refl, sym, subst, List, Option, none, some, Bytes, arith, Bool, true, false,
  if◌then◌else◌, Exec, Preserves, preserves_rules, Result, err,
}
use aetheria.Prelude.Int.{ℤ}
use aetheria.Agent.Types.{
  ContainerConfig, ContainerCreateParams, ContainerExecParams, Error, not_running, panicked,
}
use aetheria.Agent.Os.{Os, Guest}
use aetheria.Agent.Container.{
  Agent, Pending, create, create_insert, check_new, start, start_begin, start_commit, stop, remove,
  exec, exec_at, logs, find, on_guest, lift, run_in, is_running,
}
use aetheria.Agent.Lifecycle.{
  Reach, here, later, inserted, committed, asked_to_stop, removed, elsewhere,
}
use aetheria.Agent.PortForward.{Sockets, connect_forward}
use aetheria.Agent.Rpc.{
  Codec, Request, Response, Payload, Services, container_rpc, port_forward_rpc, connect_in,
  shell_in, dispatch, handle_request, with_params, run_command,
}

module _ (os : Os) (encode : ContainerConfig → Bytes) (quota_of : ℕ → ℤ) (a₀ : Agent os.World) where
  open os use {World}

  -- The states that the steps lead to from `a₀`
  abbrev From : Agent World → Type 0
  From = Reach os encode quota_of a₀

  -- A step that only reads
  reads-From :
      {A : Type 0} (m : Exec (Agent World) Error A)
      → ((a : Agent World) → (m a).1 ≡ a)
      → Preserves From m
  reads-From m same = record { after = λ a r. subst From (sym (same a)) r }

  if-From :
      {A : Type 0} (b : Bool) (m n : Exec (Agent World) Error A)
      → Preserves From m
      → Preserves From n
      → Preserves From (if b then m else n)
  if-From true m n hm hn = hm
  if-From false m n hm hn = hn

  if_after :
      {A : Type 0} (b : Bool) (x y : Result Error A × Agent World)
      → From x.1
      → From y.1
      → From (if b then x else y).1
  if_after true x y hx hy = hx
  if_after false x y hx hy = hy

  with_params-From :
      {P : Type 0} (p : Option P) (f : P → Exec (Agent World) Error Payload)
      → ((x : P) → Preserves From (f x))
      → Preserves From (with_params p f)
  with_params-From none f h = record { after = λ a r. r }
  with_params-From (some x) f h = h x

  -- An answer that changes nothing
  here-From :
      {A : Type 0} (f : Agent World → Result Error A)
      → Preserves From (λ (a : Agent World). (f a, a))
  here-From f = record { after = λ a r. r }

  on_guest-From : {A : Type 0} (m : Exec (Guest World) Error A) → Preserves From (on_guest m)
  on_guest-From m = record { after = λ a r. later r (elsewhere (m a.guest).1) }

  lift-From : {A : Type 0} (r : Result Error A) → Preserves From (lift r)
  lift-From r = record { after = λ a h. h }

  check_new-From : (name : Bytes) → Preserves From (check_new name)
  check_new-From name = reads-From (check_new name) (λ a. unfold check_new in ground arith)

  create_insert-From :
      (p : ContainerCreateParams) (rootfs : Bytes)
      → Preserves From (create_insert os encode p rootfs)
  create_insert-From p rootfs = record { after = λ a r. later r (inserted p rootfs) }

  start_begin-From : (name : Bytes) → Preserves From (start_begin name)
  start_begin-From name =
      reads-From (start_begin name) (λ a. unfold start_begin find in ground arith)

  start_commit-From : (s : Pending) → Preserves From (start_commit os quota_of s)
  start_commit-From s = record { after = λ a r. later r (committed s) }

  stop-From : (name : Bytes) → Preserves From (stop os name)
  stop-From name = record { after = λ a r. later r (asked_to_stop name) }

  remove-From : (name : Bytes) → Preserves From (remove os name)
  remove-From name = record { after = λ a r. later r (removed name) }

  find-From : (name : Bytes) → Preserves From (find name)
  find-From name = reads-From (find name) (λ a. unfold find in ground arith)

  module _ (prepare : Bytes → Bytes → Exec (Guest World) Error Bytes) where
    create-From : (p : ContainerCreateParams) → Preserves From (create os encode prepare p)
    unfolding create
    create-From p =
        search (preserves_rules, lift-From, check_new-From, on_guest-From, create_insert-From) depth
          12

    pub start-From : (name : Bytes) → Preserves From (start os quota_of prepare name)
    unfolding start
    start-From name =
        search (preserves_rules, start_begin-From, on_guest-From, start_commit-From) depth 12

  exec_at-From : (p : ContainerExecParams) (ptr : ℕ) → Preserves From (exec_at os p ptr)
  unfolding exec_at
  exec_at-From p ptr = record {
    after = λ a r.
        let c = a.manager.heap ptr in
        if_after (is_running c) (on_guest (run_in os c p) a) (err (not_running p.name), a)
          (later r (elsewhere (run_in os c p a.guest).1)) r;
  }

  exec-From : (p : ContainerExecParams) → Preserves From (exec os p)
  unfolding exec
  exec-From p = search (preserves_rules, find-From, exec_at-From) depth 12

  logs-From : (name : Bytes) (lines : ℕ) → Preserves From (logs os name lines)
  unfolding logs
  logs-From name lines = reads-From (logs os name lines) (λ a. unfold logs find in ground arith)

  run_command-From : (c : Bytes × List Bytes) → Preserves From (run_command os c)
  unfolding run_command
  run_command-From c = search (preserves_rules, on_guest-From, if-From) depth 12

  connect_in-From : (net : Sockets World) (port : ℕ) → Preserves From (connect_in os net port)
  connect_in-From net port = record {
    after = λ a r. later r (
        elsewhere
          (record a.guest { world = (connect_forward net port a.manager a.guest.world).1 }));
  }

  module _ (codec : Codec) (prepare : Bytes → Bytes → Exec (Guest World) Error Bytes)
      (net : Sockets World) (services : Services World) where
    container_rpc-From :
        (method params : Bytes)
        → Preserves From (container_rpc os codec encode quota_of prepare method params)
    unfolding container_rpc
    container_rpc-From method params =
        search
          (
            preserves_rules, if-From, with_params-From, create-From, start-From, stop-From,
            remove-From, exec-From, logs-From, here-From,
          )
          depth 24

    port_forward_rpc-From :
        (method params : Bytes) → Preserves From (port_forward_rpc os codec net method params)
    unfolding port_forward_rpc
    port_forward_rpc-From method params =
        search (preserves_rules, if-From, with_params-From, connect_in-From, here-From) depth 24

    shell_in-From :
        (params : Bytes)
        → Preserves From (shell_in os codec encode quota_of prepare net services params)
    unfolding shell_in
    shell_in-From params = record {
      after = λ a r. later r (elsewhere (services.shell params a.manager a.guest).1);
    }

    dispatch-From :
        (method params : Bytes)
        → Preserves From (dispatch os codec encode quota_of prepare net services method params)
    unfolding dispatch
    dispatch-From method params =
        search
          (
            preserves_rules, if-From, with_params-From, on_guest-From, shell_in-From,
            container_rpc-From, port_forward_rpc-From, run_command-From,
          )
          depth 24

-- The answer to a request has its number, and there is none only where the handler panicked.
abbrev pub Numbered : Bool → ℤ → Option Response → Type 0
Numbered gone n none = gone ≡ true
Numbered gone n (some r) = r.id ≡ n

answered-Numbered :
    (gone : Bool) (r : Response) → Numbered gone r.id (if gone then none else some r)
answered-Numbered true r = refl
answered-Numbered false r = refl

-- Every request that the agent handles leaves it in a state that the container manager's steps lead to,
-- whatever the operating system and the handlers of shells, images and `info` do, which change no
-- container; and it is answered, under its own number, unless its handler panics.
pub handle_request-Reach :
    (os : Os) (codec : Codec) (encode : ContainerConfig → Bytes) (quota_of : ℕ → ℤ)
    (prepare : Bytes → Bytes → Exec (Guest os.World) Error Bytes) (net : Sockets os.World)
    (services : Services os.World) (q : Request) (a : Agent os.World)
    → let (r, a') = handle_request os codec encode quota_of prepare net services q a in
      Reach os encode quota_of a a'
      × Numbered
          (panicked (dispatch os codec encode quota_of prepare net services q.method q.params a).0)
          q.id
          r
unfolding handle_request
handle_request-Reach os codec encode quota_of prepare net services q a = (
  (dispatch-From os encode quota_of a codec prepare net services q.method q.params).after a here,
  answered-Numbered
      (panicked (dispatch os codec encode quota_of prepare net services q.method q.params a).0)
      (record {
        outcome = (dispatch os codec encode quota_of prepare net services q.method q.params a).0;
        id = q.id;
      }),
)
