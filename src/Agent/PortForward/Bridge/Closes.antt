-- ===== src/Agent/PortForward/Bridge/Closes.antt =====
-- How a tunnel ends (portforward.go): bridgeConnections.
use aetheria.Prelude.{ℕ, zero, suc, ◌+◌, ◌*◌, ◌≤◌, ◌<◌, ◌≡◌, ◌⊎◌, inl, inr, refl, arith}
use aetheria.Agent.PortForward.Bridge.{
  Side, to_container, to_vsock, Goroutine, copying, ended, passed, signalled, Once, unused,
  finished, first_close, second_close, Bridge, goroutine, bridge_start, Own, unblocks, enters,
  closes_vsock, closes_container, passes, signals, receives, Step, own, copy_ends, Run, started,
  then_step,
}

-- How far a goroutine is, and how far the closing is
abbrev past : Goroutine → ℕ
past copying = 0
past ended = 0
past passed = 1
past signalled = 1

abbrev signal : Goroutine → ℕ
signal copying = 0
signal ended = 0
signal passed = 0
signal signalled = 1

abbrev vsock_of : Once → ℕ
vsock_of unused = 0
vsock_of (first_close d) = 0
vsock_of (second_close d) = 1
vsock_of finished = 1

abbrev container_of : Once → ℕ
container_of unused = 0
container_of (first_close d) = 0
container_of (second_close d) = 0
container_of finished = 1

abbrev Holds : Once → Bridge → Type 0
Holds unused s = Unit
Holds (first_close d) s = goroutine d s ≡ ended
Holds (second_close d) s = goroutine d s ≡ ended
Holds finished s = Unit

record Inv (s : Bridge) : Type 0 where
  vsock : s.vsock_closes ≡ vsock_of s.once
  container : s.container_closes ≡ container_of s.once
  holder : Holds s.once s
  behind : past s.container_side + past s.vsock_side ≤ 2 * container_of s.once
  channel : s.tokens + 2 ≡ s.awaited + signal s.container_side + signal s.vsock_side

bridge_start-Inv : Inv bridge_start
bridge_start-Inv = record {
  vsock = refl;
  container = refl;
  holder = tt;
  behind = omega arith;
  channel = refl;
}

Own-Inv : {s t : Bridge} → Own s t → Inv s → Inv t
Own-Inv {s} (unblocks to_container at v c) h = ground arith
Own-Inv {s} (enters to_container at o) h = ground arith
Own-Inv {s} (closes_vsock to_container at o) h = ground arith
Own-Inv {s} (closes_container to_container at o) h = ground arith
Own-Inv {s} (passes to_container at o) h = ground arith
Own-Inv {s} (signals to_container at) h = ground arith
Own-Inv {s} (unblocks to_vsock at v c) h = ground arith
Own-Inv {s} (enters to_vsock at o) h = ground arith
Own-Inv {s} (closes_vsock to_vsock at o) h = ground arith
Own-Inv {s} (closes_container to_vsock at o) h = ground arith
Own-Inv {s} (passes to_vsock at o) h = ground arith
Own-Inv {s} (signals to_vsock at) h = ground arith
Own-Inv {s} (receives n k t a) h = ground arith

Step-Inv : {s t : Bridge} → Step s t → Inv s → Inv t
Step-Inv (own step) h = Own-Inv step h
Step-Inv {s} (copy_ends to_container at) h = ground arith
Step-Inv {s} (copy_ends to_vsock at) h = ground arith

Run-Inv : {n : ℕ} {s : Bridge} → Run n s → Inv s
Run-Inv started = bridge_start-Inv
Run-Inv (then_step run step) = Step-Inv step (Run-Inv run)

-- The steps that are still to come
abbrev rank : Goroutine → ℕ
rank copying = 3
rank ended = 2
rank passed = 1
rank signalled = 0

abbrev once_rank : Once → ℕ
once_rank unused = 2
once_rank (first_close d) = 1
once_rank (second_close d) = 0
once_rank finished = 0

abbrev size : Bridge → ℕ
size s = rank s.container_side + rank s.vsock_side + once_rank s.once + s.awaited

Own-size : {s t : Bridge} → Own s t → size t < size s
Own-size {s} (unblocks to_container at v c) = ground arith
Own-size {s} (unblocks to_vsock at v c) = ground arith
Own-size {s} (enters d at o) = ground arith
Own-size {s} (closes_vsock d at o) = ground arith
Own-size {s} (closes_container to_container at o) = ground arith
Own-size {s} (closes_container to_vsock at o) = ground arith
Own-size {s} (passes to_container at o) = ground arith
Own-size {s} (passes to_vsock at o) = ground arith
Own-size {s} (signals to_container at) = ground arith
Own-size {s} (signals to_vsock at) = ground arith
Own-size {s} (receives n k t a) = ground arith

Step-size : {s t : Bridge} → Step s t → size t < size s
Step-size (own step) = Own-size step
Step-size {s} (copy_ends to_container at) = ground arith
Step-size {s} (copy_ends to_vsock at) = ground arith

Run-size : {n : ℕ} {s : Bridge} → Run n s → n + size s ≤ 10
Run-size started = omega arith
Run-size (then_step run step) = omega (arith, Run-size run, Step-size step)

abbrev Next : Bridge → Type 0
Next s = (t : Bridge) × Own s t

closing :
    (s : Bridge) (o : Once) (d : Side) → s.once ≡ o → Holds o s → goroutine d s ≡ ended → Next s
closing s unused d e h at = (_, enters d at e)
closing s (first_close f) d e h at = (_, closes_vsock f h e)
closing s (second_close f) d e h at = (_, closes_container f h e)
closing s finished d e h at = (_, passes d at e)

-- One goroutine has signalled, the other one still copies.
unblocking :
    (s : Bridge) (o : Once) (d : Side)
    → s.once ≡ o
    → Inv s
    → 1 ≤ past s.container_side + past s.vsock_side
    → goroutine d s ≡ copying
    → Next s
unblocking s unused d e h far at = ground arith
unblocking s (first_close f) d e h far at = ground arith
unblocking s (second_close f) d e h far at = ground arith
unblocking s finished d e h far at = (_, unblocks d at (ground arith) (ground arith))

abbrev Rest : Bridge → Type 0
Rest s = Next s ⊎ ((s.container_side ≡ copying) × (s.vsock_side ≡ copying))

waiting :
    (s : Bridge) (c v : Goroutine) (k : ℕ)
    → s.container_side ≡ c
    → s.vsock_side ≡ v
    → s.tokens ≡ 0
    → s.awaited ≡ suc k
    → Inv s
    → Rest s
waiting s passed v k ec ev empty more h = inl (_, signals to_container ec)
waiting s ended v k ec ev empty more h = inl (closing s s.once to_container refl h.holder ec)
waiting s copying passed k ec ev empty more h = inl (_, signals to_vsock ev)
waiting s copying ended k ec ev empty more h = inl (closing s s.once to_vsock refl h.holder ev)
waiting s copying copying k ec ev empty more h = inr (ec, ev)
waiting s copying signalled k ec ev empty more h =
    inl (unblocking s s.once to_container refl h (ground arith) ec)
waiting s signalled passed k ec ev empty more h = inl (_, signals to_vsock ev)
waiting s signalled ended k ec ev empty more h = inl (closing s s.once to_vsock refl h.holder ev)
waiting s signalled copying k ec ev empty more h =
    inl (unblocking s s.once to_vsock refl h (ground arith) ev)
waiting s signalled signalled k ec ev empty more h = ground arith

progress : (s : Bridge) (n k : ℕ) → s.tokens ≡ n → s.awaited ≡ k → Inv s → (s.awaited ≡ 0) ⊎ Rest s
progress s n zero t a h = inl a
progress s (suc n) (suc k) t a h = inr (inl (_, receives n k t a))
progress s zero (suc k) t a h = inr (waiting s s.container_side s.vsock_side k refl refl t a h)

-- bridgeConnections has returned, behind one call of Close for each connection and the last step of both
-- goroutines.
abbrev pub Returned : Bridge → Type 0
Returned s =
    (s.awaited ≡ 0)
    × (s.vsock_closes ≡ 1)
    × (s.container_closes ≡ 1)
    × (s.container_side ≡ signalled)
    × (s.vsock_side ≡ signalled)

Inv-Returned : (s : Bridge) → Inv s → s.awaited ≡ 0 → Returned s
Inv-Returned s h a = ground arith

abbrev pub BothCopy : Bridge → Type 0
BothCopy s = (s.container_side ≡ copying) × (s.vsock_side ≡ copying)

rest_of :
    (s : Bridge)
    → ((t : Bridge) → ¬ Own s t)
    → Inv s
    → (s.awaited ≡ 0) ⊎ Rest s
    → Returned s ⊎ BothCopy s
rest_of s stuck h (inl a) = inl (Inv-Returned s h a)
rest_of s stuck h (inr (inl (t, step))) = absurd (stuck t step)
rest_of s stuck h (inr (inr both)) = inr both

-- Whatever the order of the goroutines' steps, a tunnel makes at most ten; and where the program can
-- do nothing more, either both directions are still being copied, or bridgeConnections has returned,
-- each connection was closed once, and both goroutines are at their end.
pub Run-ends :
    {n : ℕ} {s : Bridge}
    → Run n s
    → ((t : Bridge) → ¬ Own s t)
    → (n ≤ 10) × (Returned s ⊎ BothCopy s)
Run-ends {n} {s} run stuck =
    let h = Run-Inv run in
    (omega (arith, Run-size run), rest_of s stuck h (progress s s.tokens s.awaited refl refl h))
