-- ===== src/Agent/Container/Again.antt =====
-- A name that was given is not given again.
use aetheria.Prelude.{
  ℕ, ◌≡◌, refl, some, Bytes, ok, err, Exec, ◌>>=◌, ◌>>◌, arith, lookup, lookup-insert_self, Ensures,
  Ensures-bind, bind-ok, ap, ◌∙◌,
}
use aetheria.Agent.Types.{ContainerConfig, ContainerCreateParams, Error, already_exists}
use aetheria.Agent.Os.{Os, Guest}
use aetheria.Agent.Container.State.{Agent, validate_container_name, lift, on_guest}
use aetheria.Agent.Container.Create.{
  create, create_insert, check_new, register, choose_rootfs, check_rootfs,
}

module _ (os : Os) (encode : ContainerConfig → Bytes)
    (prepare : Bytes → Bytes → Exec (Guest os.World) Error Bytes) (p : ContainerCreateParams) where
  open os use {World}

  -- The map has a container of the name.
  abbrev Held : Agent World → Type 0
  Held a = (q : ℕ) × (lookup p.name a.manager.containers ≡ some q)

  insert-holds :
      (rootfs : Bytes) (a : Agent World)
      → (create_insert os encode p rootfs a).0 ≡ ok tt
      → lookup p.name (create_insert os encode p rootfs a).1.manager.containers
        ≡ some a.manager.next
  unfolding create_insert register
  insert-holds rootfs a h =
      ground (arith, lookup-insert_self p.name a.manager.next a.manager.containers)

  create_insert-Held : (rootfs : Bytes) → Ensures Held (create_insert os encode p rootfs)
  create_insert-Held rootfs = record { result = λ a u h. (a.manager.next, insert-holds rootfs a h) }

  create-Held : Ensures Held (create os encode prepare p)
  unfolding create
  create-Held = search (Ensures-bind, create_insert-Held) depth 12

  -- Every entry of the first state's map is in the second one's.
  abbrev pub StillHas : Agent World → Agent World → Type 0
  StillHas a b =
      (name : Bytes) (q : ℕ)
      → lookup name a.manager.containers ≡ some q
      → lookup name b.manager.containers ≡ some q

  valid_first :
      (a : Agent World)
      → (create os encode prepare p a).0 ≡ ok tt
      → validate_container_name p.name ≡ ok tt
  unfolding create
  valid_first a h =
      (bind-ok (lift (validate_container_name p.name))
        (λ _.
          check_new p.name
          >> (on_guest (choose_rootfs os prepare p) >>= λ rootfs.
              on_guest (check_rootfs os rootfs) >> create_insert os encode p rootfs))
        a tt h).1

  refused :
      (again : ContainerCreateParams) (b : Agent World) (q : ℕ)
      → validate_container_name again.name ≡ ok tt
      → lookup again.name b.manager.containers ≡ some q
      → create os encode prepare again b ≡ (err (already_exists again.name), b)
  unfolding create check_new
  refused again b q valid held = rw (valid, check_new, held) refl

  -- Where a container was created, no request can create one under its name again, whatever else it asks
  -- for, in any state whose map still has the entries from then: the request is refused and changes
  -- nothing, whatever the operating system does.
  pub create-again :
      (a : Agent World)
      → (create os encode prepare p a).0 ≡ ok tt
      → (again : ContainerCreateParams) (b : Agent World) → again.name ≡ p.name
      → StillHas (create os encode prepare p a).1 b
      → create os encode prepare again b ≡ (err (already_exists p.name), b)
  create-again a h again b same_name still =
      let (q, held) = create-Held.result a tt h in
      refused again b q (ap validate_container_name same_name ∙ valid_first a h)
        (ap (λ (n : Bytes). lookup n b.manager.containers) same_name ∙ still p.name q held)
      ∙ ap (λ (n : Bytes). (err (already_exists n), b)) same_name
