-- ===== src/Agent/Network/Failures.antt =====
-- What `setupBridgeNetwork` leaves behind when it fails, and the once-only creation of the bridge.
use aetheria.Prelude.{
  ℕ, ◌≡◌, refl, Bool, true, List, arith, Bytes, ok, ◌>>=◌, Preserves, preserves_rules, Returns,
  returns_rules,
}
use aetheria.Agent.Types.{Error}
use aetheria.Agent.Os.{Os, Guest}
use aetheria.Agent.Network.{
  attempt, require, masquerade, create_bridge, ensure_bridge, fresh_ip, connect_veth,
  setup_bridge_network, next_address, allocate_ip, address,
}

module _ (os : Os) where
  open os use {World}

  -- The counter and the bridge flag of a state.
  abbrev At : ℕ → Bool → Guest World → Type 0
  At n b g = (g.next_ip ≡ n) × (g.bridge_done ≡ b)

  module _ (n : ℕ) (b : Bool) where
    attempt-At : (argv : List Bytes) → Preserves (At n b) (attempt os argv)
    unfolding attempt
    attempt-At argv = record { after = λ g h. h }

    require-At : (e : Error) (argv : List Bytes) → Preserves (At n b) (require os e argv)
    unfolding require
    require-At e argv = record { after = λ g h. h }

    masquerade-At : Preserves (At n b) (masquerade os)
    unfolding masquerade
    masquerade-At = record { after = λ g h. ground arith }

    create_bridge-At : Preserves (At n b) (create_bridge os)
    unfolding create_bridge
    create_bridge-At = search (preserves_rules, attempt-At, require-At, masquerade-At) depth 16

    connect_veth-At :
        (name : Bytes) (pid : ℕ) (ip : Bytes) → Preserves (At n b) (connect_veth os name pid ip)
    unfolding connect_veth
    connect_veth-At name pid ip = search (preserves_rules, attempt-At, require-At) depth 16

  create_bridge-keeps :
      (g : Guest World)
      → ((create_bridge os g).1.next_ip ≡ g.next_ip)
        × ((create_bridge os g).1.bridge_done ≡ g.bridge_done)
  create_bridge-keeps g = (create_bridge-At g.next_ip g.bridge_done).after g (refl, refl)

  next_ip-ensure_bridge : (g : Guest World) → (ensure_bridge os g).1.next_ip ≡ g.next_ip
  unfolding ensure_bridge
  next_ip-ensure_bridge g = ground (arith, create_bridge-keeps (record g { bridge_done = true }))

  bridge_done-ensure_bridge : (g : Guest World) → (ensure_bridge os g).1.bridge_done ≡ true
  unfolding ensure_bridge
  bridge_done-ensure_bridge g =
      ground (arith, create_bridge-keeps (record g { bridge_done = true }))

  second_call : (g : Guest World) → g.bridge_done ≡ true → ensure_bridge os g ≡ (ok tt, g)
  unfolding ensure_bridge
  second_call g h = rw h

  -- The bridge is set up at most once: a second `ensureBridge` runs no command and returns no error,
  -- also if the first one failed.
  pub ensure_bridge_once :
      (g : Guest World) → ensure_bridge os (ensure_bridge os g).1 ≡ (ok tt, (ensure_bridge os g).1)
  ensure_bridge_once g = second_call (ensure_bridge os g).1 (bridge_done-ensure_bridge g)

  connect_veth-Returns :
      (name : Bytes) (pid : ℕ) (ip : Bytes) → Returns (λ r. r ≡ ip) (connect_veth os name pid ip)
  unfolding connect_veth
  connect_veth-Returns name pid ip = search returns_rules depth 16

  connect_with_address :
      (name : Bytes) (pid : ℕ) (g : Guest World)
      → (((fresh_ip os >>= connect_veth os name pid) g).1.next_ip ≡ next_address g.next_ip)
        × ((ip : Bytes)
            → ((fresh_ip os >>= connect_veth os name pid) g).0 ≡ ok ip
            → ip ≡ address g.next_ip)
  unfolding fresh_ip allocate_ip
  connect_with_address name pid g =
      let g₂ : Guest World = record g { next_ip = next_address g.next_ip } in
      let ip₂ : Bytes = address g.next_ip in
      let kept = (connect_veth-At g₂.next_ip g₂.bridge_done name pid ip₂).after g₂ (refl, refl) in
      (kept.0, λ ip e. (connect_veth-Returns name pid ip₂).value g₂ ip e)

  -- Whatever fails behind it, an address that was taken stays taken: when `setupBridgeNetwork` fails
  -- behind the creation of the bridge, the counter has moved. An address that it returns is the one
  -- that the counter stood at.
  pub setup_bridge_network-address :
      (name : Bytes) (pid : ℕ) (g : Guest World)
      → (ensure_bridge os g).0 ≡ ok tt
      → ((setup_bridge_network os name pid g).1.next_ip ≡ next_address g.next_ip)
        × ((ip : Bytes) → (setup_bridge_network os name pid g).0 ≡ ok ip → ip ≡ address g.next_ip)
  unfolding setup_bridge_network
  setup_bridge_network-address name pid g h =
      rw h (rw (next_ip-ensure_bridge g) at (connect_with_address name pid (ensure_bridge os g).1))
