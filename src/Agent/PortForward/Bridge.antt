-- ===== src/Agent/PortForward/Bridge.antt =====
-- The goroutines of a tunnel (portforward.go): bridgeConnections.
pub mod Closes
use aetheria.Prelude.{ℕ, zero, suc, ◌+◌, ◌<◌, ◌≡◌}

pub data Side : Type 0 where
  to_container to_vsock : Side

-- A goroutine: io.CopyBuffer runs, it has returned, once.Do has returned, `done` is signalled.
pub data Goroutine : Type 0 where
  copying ended passed signalled : Goroutine

-- The sync.Once of closeAll: nobody has called it, a goroutine is about to close the first or the second
-- connection, both are closed.
pub data Once : Type 0 where
  unused finished : Once
  first_close second_close : Side → Once

-- `tokens` is the number of values in `done`, `awaited` that of the receives of the function that are
-- still to come, and the other two count the calls of Close.
pub record Bridge : Type 0 where
  pub container_side : Goroutine
  pub vsock_side : Goroutine
  pub once : Once
  pub tokens : ℕ
  pub awaited : ℕ
  pub vsock_closes : ℕ
  pub container_closes : ℕ

abbrev pub goroutine : Side → Bridge → Goroutine
goroutine to_container s = s.container_side
goroutine to_vsock s = s.vsock_side

abbrev pub move : Side → Goroutine → Bridge → Bridge
move to_container g s = record s { container_side = g }
move to_vsock g s = record s { vsock_side = g }

abbrev pub bridge_start : Bridge
bridge_start = record {
  container_side = copying;
  vsock_side = copying;
  once = unused;
  tokens = 0;
  awaited = 2;
  vsock_closes = 0;
  container_closes = 0;
}

-- What the program does next. io.CopyBuffer returns once both connections are closed.
pub data Own (s : Bridge) : Bridge → Type 0 where
  unblocks :
      (d : Side)
      → goroutine d s ≡ copying
      → 0 < s.vsock_closes
      → 0 < s.container_closes
      → Own s (move d ended s)
  enters :
      (d : Side)
      → goroutine d s ≡ ended
      → s.once ≡ unused
      → Own s (record s { once = first_close d })
  closes_vsock :
      (d : Side)
      → goroutine d s ≡ ended
      → s.once ≡ first_close d
      → Own s (record s { once = second_close d; vsock_closes = s.vsock_closes + 1 })
  closes_container :
      (d : Side)
      → goroutine d s ≡ ended
      → s.once ≡ second_close d
      → Own s
          (move d passed (record s { once = finished; container_closes = s.container_closes + 1 }))
  passes : (d : Side) → goroutine d s ≡ ended → s.once ≡ finished → Own s (move d passed s)
  signals :
      (d : Side)
      → goroutine d s ≡ passed
      → Own s (move d signalled (record s { tokens = s.tokens + 1 }))
  receives :
      (n k : ℕ)
      → s.tokens ≡ suc n
      → s.awaited ≡ suc k
      → Own s (record s { tokens = n; awaited = k })

-- A step of the program, or one copy ends: its source has no more bytes, or one of its ends fails.
pub data Step (s : Bridge) : Bridge → Type 0 where
  own : {t : Bridge} → Own s t → Step s t
  copy_ends : (d : Side) → goroutine d s ≡ copying → Step s (move d ended s)

-- The states after a number of steps
pub data Run : ℕ → Bridge → Type 0 where
  started : Run 0 bridge_start
  then_step : {n : ℕ} {s t : Bridge} → Run n s → Step s t → Run (suc n) t
