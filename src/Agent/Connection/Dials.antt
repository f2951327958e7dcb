-- ===== src/Agent/Connection/Dials.antt =====
-- The dials of connectToHost and dialVsock (main.go): descriptors and addresses.
use aetheria.Prelude.{
  ℕ, zero, suc, ◌<◌, ◌≡◌, refl, Bool, true, false, Option, none, some, arith, Bytes, if◌then◌else◌,
  ◌==◌, ◌∙◌, sym, ap,
}
use aetheria.Agent.Connection.{
  Vsock, sockaddr, connected, with_socket, dial_vsock, or_again, dials, connect_to_host, host_cid,
  agent_port,
}

-- What the calls do to the descriptors that are open.
pub record Descriptors {W : Type 0} (vsock : Vsock W) (is_open : ℕ → W → Bool) : Type 0 where
  pub refused :
      (w : W) → (vsock.socket w).0 ≡ none → (d : ℕ) → is_open d (vsock.socket w).1 ≡ is_open d w
  pub opened :
      (w : W) (fd : ℕ)
      → (vsock.socket w).0 ≡ some fd
      → (is_open fd w ≡ false)
        × ((d : ℕ) → is_open d (vsock.socket w).1 ≡ (if d == fd then true else is_open d w))
  pub connecting :
      (fd : ℕ) (address : Bytes) (w : W) (d : ℕ)
      → is_open d (vsock.connect fd address w).1 ≡ is_open d w
  pub closed :
      (fd : ℕ) (w : W) (d : ℕ)
      → is_open d (vsock.close fd w) ≡ (if d == fd then false else is_open d w)
  pub sleeping : (w : W) (d : ℕ) → is_open d (vsock.sleep w) ≡ is_open d w

-- Only the socket that is returned is open afterwards, and it was not before.
abbrev pub Opens : {W : Type 0} → (ℕ → W → Bool) → W → Option ℕ × W → Type 0
Opens is_open w (none, w') = (d : ℕ) → is_open d w' ≡ is_open d w
Opens is_open w (some fd, w') =
    (is_open fd w ≡ false) × ((d : ℕ) → is_open d w' ≡ (if d == fd then true else is_open d w))

module _ {W : Type 0} (vsock : Vsock W) (is_open : ℕ → W → Bool)
    (laws : Descriptors vsock is_open) where
  connected-Opens :
      (w w₁ : W) (fd : ℕ) (r : Bool × W)
      → (is_open fd w ≡ false) × ((d : ℕ) → is_open d w₁ ≡ (if d == fd then true else is_open d w))
      → ((d : ℕ) → is_open d r.1 ≡ is_open d w₁)
      → Opens is_open w (connected vsock fd r)
  connected-Opens w w₁ fd (true, w₂) (fresh, opened) same_open =
      (fresh, λ d. same_open d ∙ opened d)
  connected-Opens w w₁ fd (false, w₂) (fresh, opened) same_open =
      λ d. ground (arith, laws.closed fd w₂ d, same_open d, opened d, fresh)

  with_socket-Opens :
      (cid port : ℕ) (w : W) (r : Option ℕ × W)
      → r ≡ vsock.socket w
      → Opens is_open w (with_socket vsock cid port r)
  with_socket-Opens cid port w (none, w₁) same_result = λ d.
      ap (λ (x : Option ℕ × W). is_open d x.1) same_result
      ∙ laws.refused w (sym (ap (λ (x : Option ℕ × W). x.0) same_result)) d
  with_socket-Opens cid port w (some fd, w₁) same_result =
      let (fresh, opened) = laws.opened w fd (sym (ap (λ (x : Option ℕ × W). x.0) same_result)) in
      connected-Opens w w₁ fd (vsock.connect fd (sockaddr cid port) w₁)
        (fresh, λ d. ap (λ (x : Option ℕ × W). is_open d x.1) same_result ∙ opened d)
        (laws.connecting fd (sockaddr cid port) w₁)

  pub dial_vsock-Opens : (cid port : ℕ) (w : W) → Opens is_open w (dial_vsock vsock cid port w)
  unfolding dial_vsock
  dial_vsock-Opens cid port w = with_socket-Opens cid port w (vsock.socket w) refl

  Opens-after :
      (w w₁ : W) (r : Option ℕ × W)
      → ((d : ℕ) → is_open d w₁ ≡ is_open d w)
      → Opens is_open w₁ r
      → Opens is_open w r
  Opens-after w w₁ (none, w₂) before h = λ d. h d ∙ before d
  Opens-after w w₁ (some fd, w₂) before (fresh, h) = (
    sym (before fd) ∙ fresh,
    λ d. h d ∙ ap (λ (b : Bool). if d == fd then true else b) (before d),
  )

  or_again-Opens :
      (w : W) (again : W → Option ℕ × W) (r : Option ℕ × W)
      → ((w' : W) → Opens is_open w' (again w'))
      → Opens is_open w r
      → Opens is_open w (or_again vsock again r)
  or_again-Opens w again (some fd, w₁) rest h = h
  or_again-Opens w again (none, w₁) rest h =
      Opens-after w (vsock.sleep w₁) (again (vsock.sleep w₁)) (λ d. laws.sleeping w₁ d ∙ h d)
        (rest _)

  dials-Opens : (n : ℕ) (w : W) → Opens is_open w (dials vsock n w)
  unfolding dials
  dials-Opens zero w = λ d. refl
  dials-Opens (suc n) w =
      or_again-Opens w (dials vsock n) (dial_vsock vsock host_cid agent_port w) (dials-Opens n)
        (dial_vsock-Opens host_cid agent_port w)

-- With sockets that `Descriptors` describes, however many of its dials fail, and at whichever call,
-- connectToHost leaves exactly the descriptor open that it returns, which was not open before; if it
-- gives up, none more than before.
pub connect_to_host-Opens :
    {W : Type 0} (vsock : Vsock W) (is_open : ℕ → W → Bool)
    → Descriptors vsock is_open
    → (w : W) → Opens is_open w (connect_to_host vsock w)
unfolding connect_to_host
connect_to_host-Opens vsock is_open laws w = dials-Opens vsock is_open laws 30 w

-- The world after `k` dials that failed, and the waits between them
unfoldable pub waited : {W : Type 0} → Vsock W → ℕ → W → W
waited vsock zero w = w
waited vsock (suc k) w = waited vsock k (vsock.sleep (dial_vsock vsock host_cid agent_port w).1)

or_again-none :
    {W : Type 0} (vsock : Vsock W) (again : W → Option ℕ × W) (r : Option ℕ × W)
    → r.0 ≡ none
    → or_again vsock again r ≡ again (vsock.sleep r.1)
or_again-none vsock again (none, w) h = refl
or_again-none vsock again (some fd, w) h = cc h

or_again-some :
    {W : Type 0} (vsock : Vsock W) (again : W → Option ℕ × W) (fd : ℕ) (r : Option ℕ × W)
    → r.0 ≡ some fd
    → or_again vsock again r ≡ r
or_again-some vsock again fd (none, w) h = cc h
or_again-some vsock again fd (some c, w) h = refl

module _ {W : Type 0} (vsock : Vsock W) where
  abbrev dial : W → Option ℕ × W
  dial w = dial_vsock vsock host_cid agent_port w

  dials-first :
      (n k : ℕ) (w : W) (fd : ℕ)
      → k < n
      → ((i : ℕ) → i < k → (dial (waited vsock i w)).0 ≡ none)
      → (dial (waited vsock k w)).0 ≡ some fd
      → dials vsock n w ≡ dial (waited vsock k w)
  unfolding dials waited
  dials-first zero k w fd less failed h = absurd (omega arith)
  dials-first (suc n) zero w fd less failed h = or_again-some vsock (dials vsock n) fd (dial w) h
  dials-first (suc n) (suc k) w fd less failed h =
      or_again-none vsock (dials vsock n) (dial w) (failed 0 (omega arith))
      ∙ dials-first n k (vsock.sleep (dial w).1) fd (omega arith)
          (λ i lt. failed (suc i) (omega arith)) h

  dials-none :
      (n : ℕ) (w : W)
      → ((i : ℕ) → i < n → (dial (waited vsock i w)).0 ≡ none)
      → dials vsock n w ≡ (none, waited vsock n w)
  unfolding dials waited
  dials-none zero w failed = refl
  dials-none (suc n) w failed =
      or_again-none vsock (dials vsock n) (dial w) (failed 0 (omega arith))
      ∙ dials-none n (vsock.sleep (dial w).1) (λ i lt. failed (suc i) (omega arith))

-- If the first k dials of connectToHost fail, for a k below 30, and the next one does not, it ends with
-- what that one returns, and dials no more. Between two dials it waits once.
pub connect_to_host-first :
    {W : Type 0} (vsock : Vsock W) (w : W) (k fd : ℕ)
    → k < 30
    → ((i : ℕ) → i < k → (dial_vsock vsock host_cid agent_port (waited vsock i w)).0 ≡ none)
    → (dial_vsock vsock host_cid agent_port (waited vsock k w)).0 ≡ some fd
    → connect_to_host vsock w ≡ dial_vsock vsock host_cid agent_port (waited vsock k w)
unfolding connect_to_host
connect_to_host-first vsock w k fd less failed h = dials-first vsock 30 k w fd less failed h

-- If 30 dials fail, connectToHost ends without a connection, after the wait that follows the last one.
pub connect_to_host-none :
    {W : Type 0} (vsock : Vsock W) (w : W)
    → ((i : ℕ) → i < 30 → (dial_vsock vsock host_cid agent_port (waited vsock i w)).0 ≡ none)
    → connect_to_host vsock w ≡ (none, waited vsock 30 w)
unfolding connect_to_host
connect_to_host-none vsock w failed = dials-none vsock 30 w failed
