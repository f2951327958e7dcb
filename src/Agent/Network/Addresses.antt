-- ===== src/Agent/Network/Addresses.antt =====
-- Which addresses `allocateIP` hands out, and when one comes back.
use aetheria.Prelude.{
  ℕ, zero, suc, ◌+◌, ◌-◌, ◌%◌, ◌≤◌, ◌<◌, ◌≡◌, ◌≢◌, refl, arith, Bytes, ap, sym, ◌∙◌,
}
use aetheria.Text.Decimal.{decimal, decimal-injective}
use aetheria.Agent.Os.{Guest}
use aetheria.Agent.Network.{next_address, address, allocate_ip, bridge_ip}

-- The counter after `n` calls.
abbrev pub counter : ℕ → ℕ → ℕ
counter zero c = c
counter (suc n) c = next_address (counter n c)

-- The state after `n` calls of `allocateIP`.
abbrev pub allocations : {W : Type 0} → ℕ → Guest W → Guest W
allocations zero g = g
allocations (suc n) g = (allocate_ip (allocations n g)).1

abbrev pub InSubnet : ℕ → Type 0
InSubnet c = (2 ≤ c) × (c ≤ 254)

pub next_address-InSubnet : (c : ℕ) → InSubnet c → InSubnet (next_address c)
unfolding next_address
next_address-InSubnet c h = ground arith

-- Between 2 and 254 the counter goes round a circle of 253 values.
pub counter_circle : (n c : ℕ) → InSubnet c → counter n c ≡ 2 + (c - 2 + n) % 253
unfolding next_address
counter_circle zero c h = omega arith
counter_circle (suc n) c h = ground (arith, counter_circle n c h)

pub next_ip-allocations :
    {W : Type 0} (n : ℕ) (g : Guest W) → (allocations n g).next_ip ≡ counter n g.next_ip
unfolding allocate_ip
next_ip-allocations zero g = refl
next_ip-allocations (suc n) g = ground (arith, next_ip-allocations n g)

-- The address that call number `n` returns.
abbrev pub nth_ip : {W : Type 0} → ℕ → Guest W → Bytes
nth_ip n g = (allocate_ip (allocations n g)).0

nth_ip-counter : {W : Type 0} (n : ℕ) (g : Guest W) → nth_ip n g ≡ address (counter n g.next_ip)
unfolding allocate_ip
nth_ip-counter n g = ap address (next_ip-allocations n g)

address-injective : (a b : ℕ) → address a ≡ address b → a ≡ b
unfolding address
address-injective a b h = decimal-injective a b (cc)

-- From a counter in the subnet's range, the addresses of any 253 calls in a row are different: a call
-- returns the address of an earlier one only if it is at least the 253rd call after it.
pub allocate_ip_distinct :
    {W : Type 0} (g : Guest W) (n m : ℕ)
    → InSubnet g.next_ip
    → n < m
    → m < n + 253
    → nth_ip n g ≢ nth_ip m g
allocate_ip_distinct g n m h lt near e = omega (
  arith,
  address-injective (counter n g.next_ip) (counter m g.next_ip)
      (sym (nth_ip-counter n g) ∙ e ∙ nth_ip-counter m g),
  counter_circle n g.next_ip h,
  counter_circle m g.next_ip h,
)

-- From a counter in the subnet's range, every 253rd call returns the same address again.
pub allocate_ip_reuse :
    {W : Type 0} (g : Guest W) (n : ℕ) → InSubnet g.next_ip → nth_ip (n + 253) g ≡ nth_ip n g
allocate_ip_reuse g n h =
    nth_ip-counter (n + 253) g
    ∙ ap address (omega (arith, counter_circle (n + 253) g.next_ip h, counter_circle n g.next_ip h))
    ∙ sym (nth_ip-counter n g)

bridge_address : bridge_ip ≡ address 1
unfolding address decimal
bridge_address = refl

-- From a counter in the subnet's range, no call returns the bridge's own address.
pub allocate_ip_not_bridge :
    {W : Type 0} (g : Guest W) (n : ℕ) → InSubnet g.next_ip → nth_ip n g ≢ bridge_ip
allocate_ip_not_bridge g n h e = omega (
  arith,
  address-injective (counter n g.next_ip) 1 (sym (nth_ip-counter n g) ∙ e ∙ bridge_address),
  counter_circle n g.next_ip h,
)
