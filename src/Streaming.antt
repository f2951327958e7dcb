-- ===== src/Streaming.antt =====
-- Two goroutines that copy between two connections, and a function that waits for them: StreamTo of pty.go,
-- and the bridges of main.go (cmd/aetheria) for terminals and forwarded ports.
pub mod Ends
use aetheria.Prelude.{ℕ, zero, suc, ◌+◌, ◌<◌, ◌≡◌, Bool, true, false}

-- The goroutine that reads the first connection (the terminal, or the agent's end), or the second one
pub data Reader : Type 0 where
  reads_first reads_second : Reader

-- io.Copy runs, it has returned, `done` is signalled.
pub data Copier : Type 0 where
  copying ended signalled : Copier

-- Where the function is: at its first wait, before one of its two calls of Close, at `<-done`, at its end
pub data Waiter : Type 0 where
  selecting closing_first closing_second receiving returned : Waiter

-- `tokens` is the number of values in `done`, `exited` tells whether the shell's process has ended, and
-- `by_exit` whether that has ended the first wait.
pub record Stream : Type 0 where
  pub first_reader : Copier
  pub second_reader : Copier
  pub waiter : Waiter
  pub exited : Bool
  pub by_exit : Bool
  pub tokens : ℕ
  pub first_closes : ℕ
  pub second_closes : ℕ

abbrev pub copier : Reader → Stream → Copier
copier reads_first s = s.first_reader
copier reads_second s = s.second_reader

abbrev pub set_copier : Reader → Copier → Stream → Stream
set_copier reads_first c s = record s { first_reader = c }
set_copier reads_second c s = record s { second_reader = c }

abbrev pub begun : Stream
begun = record {
  first_reader = copying;
  second_reader = copying;
  waiter = selecting;
  exited = false;
  by_exit = false;
  tokens = 0;
  first_closes = 0;
  second_closes = 0;
}

-- What the program does next. `cut d` tells whether Close ends that copy: it does where io.Copy waits for a
-- connection, and not where it waits in a call on a file in blocking mode, as Fd() leaves the terminal's.
pub data Own (cut : Reader → Bool) (s : Stream) : Stream → Type 0 where
  unblocks :
      (d : Reader)
      → cut d ≡ true
      → copier d s ≡ copying
      → 0 < s.first_closes
      → 0 < s.second_closes
      → Own cut s (set_copier d ended s)
  signals :
      (d : Reader)
      → copier d s ≡ ended
      → Own cut s (set_copier d signalled (record s { tokens = s.tokens + 1 }))
  wakes_on_exit :
      s.waiter ≡ selecting
      → s.exited ≡ true
      → Own cut s (record s { waiter = closing_first; by_exit = true })
  wakes_on_copy :
      (n : ℕ)
      → s.waiter ≡ selecting
      → s.tokens ≡ suc n
      → Own cut s (record s { waiter = closing_first; tokens = n })
  closes_first :
      s.waiter ≡ closing_first
      → Own cut s (record s { waiter = closing_second; first_closes = s.first_closes + 1 })
  closes_second :
      s.waiter ≡ closing_second
      → Own cut s (record s { waiter = receiving; second_closes = s.second_closes + 1 })
  receives :
      (n : ℕ)
      → s.waiter ≡ receiving
      → s.tokens ≡ suc n
      → Own cut s (record s { waiter = returned; tokens = n })

-- A step of the program; or one copy ends, since its source has no more bytes or one of its ends fails;
-- or the shell's process ends, where the first wait is also for that.
pub data Step (shell : Bool) (cut : Reader → Bool) (s : Stream) : Stream → Type 0 where
  own : {t : Stream} → Own cut s t → Step shell cut s t
  copy_ends : (d : Reader) → copier d s ≡ copying → Step shell cut s (set_copier d ended s)
  shell_exits : shell ≡ true → s.exited ≡ false → Step shell cut s (record s { exited = true })

-- The states after a number of steps
pub data Run (shell : Bool) (cut : Reader → Bool) : ℕ → Stream → Type 0 where
  started : Run shell cut 0 begun
  then_step :
      {n : ℕ} {s t : Stream} → Run shell cut n s → Step shell cut s t → Run shell cut (suc n) t

-- StreamTo, with the goroutine that waits for the shell; in each run, either copy may wait for the connection
-- or in a call on the terminal when both are closed.
abbrev pub StreamTo : (Reader → Bool) → ℕ → Stream → Type 0
StreamTo cut = Run true cut

-- Both ends of a copy are sockets of the net package.
abbrev pub both_cut : Reader → Bool
both_cut d = true

-- The end of a connection of the command line, and of one of a forwarded port
abbrev pub HostBridge : ℕ → Stream → Type 0
HostBridge = Run false both_cut
