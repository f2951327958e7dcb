-- ===== src/Agent/PortForward/Tunnel.antt =====
-- No connection is left open by a tunnel that fails.
use aetheria.Prelude.{
  ℕ, ◌≡◌, refl, Bool, true, false, none, some, ◌++◌, arith, Bytes, codes, if◌then◌else◌, ◌==◌,
  Result, ok, err, Option-cases, inl, inr,
}
use aetheria.Text.Decimal.{decimal}
use aetheria.Agent.Types.{Error}
use aetheria.Agent.Container.{Manager}
use aetheria.Agent.PortForward.{
  Sockets, Target, connect_forward, tunnel_to, open_tunnel, open_vsock, hand_over,
  lookup_port_forward, host_cid, vsock_port,
}

-- Which connections are open in a state of the sockets: dialing opens one that was not open, closing
-- closes one, and writing changes nothing.
pub record Tracks {W : Type 0} (net : Sockets W) (is_open : ℕ → W → Bool) : Type 0 where
  pub refused :
      (addr : Bytes) (w : W)
      → (net.dial addr w).0 ≡ none
      → (d : ℕ) → is_open d (net.dial addr w).1 ≡ is_open d w
  pub dialed :
      (addr : Bytes) (w : W) (c : ℕ)
      → (net.dial addr w).0 ≡ some c
      → (is_open c w ≡ false)
        × ((d : ℕ) → is_open d (net.dial addr w).1 ≡ (if d == c then true else is_open d w))
  pub vsock_refused :
      (cid port : ℕ) (w : W)
      → (net.dial_vsock cid port w).0 ≡ none
      → (d : ℕ) → is_open d (net.dial_vsock cid port w).1 ≡ is_open d w
  pub vsock_dialed :
      (cid port : ℕ) (w : W) (c : ℕ)
      → (net.dial_vsock cid port w).0 ≡ some c
      → (is_open c w ≡ false)
        × ((d : ℕ)
            → is_open d (net.dial_vsock cid port w).1 ≡ (if d == c then true else is_open d w))
  pub written : (c : ℕ) (b : Bytes) (w : W) (d : ℕ) → is_open d (net.write c b w).1 ≡ is_open d w
  pub closed :
      (c : ℕ) (w : W) (d : ℕ) → is_open d (net.close c w) ≡ (if d == c then false else is_open d w)

module _ {W : Type 0} (net : Sockets W) (is_open : ℕ → W → Bool) (laws : Tracks net is_open) where
  hand_over-closes :
      (hp c v : ℕ) (w : W) (e : Error)
      → (d : ℕ) → (hand_over net hp c v w).0 ≡ err e
      → is_open d (hand_over net hp c v w).1
        ≡ (if d == v then false else if d == c then false else is_open d w)
  unfolding hand_over
  hand_over-closes hp c v w e d h =
      let b = decimal hp ++ codes "\n" in
      let w₁ = (net.write v b w).1 in
      ground (arith, laws.closed v (net.close c w₁) d, laws.closed c w₁ d, laws.written v b w d)

  open_vsock-closes :
      (hp c : ℕ) (w : W) (e : Error)
      → (d : ℕ) → (open_vsock net hp c w).0 ≡ err e
      → is_open d (open_vsock net hp c w).1 ≡ (if d == c then false else is_open d w)
  unfolding open_vsock
  open_vsock-closes hp c w e d h =
      let w₁ = (net.dial_vsock host_cid vsock_port w).1 in
      elim (Option-cases (net.dial_vsock host_cid vsock_port w).0) [
        | inl none_e ↦
            ground (arith, laws.closed c w₁ d, laws.vsock_refused host_cid vsock_port w none_e d)
        | inr (v, some_e) ↦
            let (fresh, grown) = laws.vsock_dialed host_cid vsock_port w v some_e in
            ground (arith, hand_over-closes hp c v w₁ e d, fresh, grown d)
      ]

  open_tunnel-closes :
      (hp : ℕ) (t : Target) (w : W) (e : Error)
      → (d : ℕ) → (open_tunnel net hp t w).0 ≡ err e
      → is_open d (open_tunnel net hp t w).1 ≡ is_open d w
  unfolding open_tunnel
  open_tunnel-closes hp t w e d h =
      let addr = t.ip ++ codes ":" ++ decimal t.port in
      let w₁ = (net.dial addr w).1 in
      elim (Option-cases (net.dial addr w).0) [
        | inl none_e ↦ ground (arith, laws.refused addr w none_e d)
        | inr (c, some_e) ↦
            let (fresh, grown) = laws.dialed addr w c some_e in
            ground (arith, open_vsock-closes hp c w₁ e d, fresh, grown d)
      ]

  tunnel_to-closes :
      (hp : ℕ) (r : Result Error Target) (w : W) (e : Error)
      → (d : ℕ) → (tunnel_to net hp r w).0 ≡ err e
      → is_open d (tunnel_to net hp r w).1 ≡ is_open d w
  tunnel_to-closes hp (err x) w e d h = refl
  tunnel_to-closes hp (ok t) w e d h = open_tunnel-closes hp t w e d h

  -- With sockets that `Tracks` describes, a forwarded connection that fails, at whichever step,
  -- leaves exactly the connections open that were open before.
  pub connect_forward-closes :
      (hp : ℕ) (m : Manager) (w : W) (e : Error)
      → (d : ℕ) → (connect_forward net hp m w).0 ≡ err e
      → is_open d (connect_forward net hp m w).1 ≡ is_open d w
  unfolding connect_forward
  connect_forward-closes hp m w e d h = tunnel_to-closes hp (lookup_port_forward hp m) w e d h
