-- ===== src/Streaming/Ends.antt =====
-- How a stream ends: StreamTo of pty.go, and the bridges of main.go (cmd/aetheria).
use aetheria.Prelude.{
  ℕ, zero, suc, ◌+◌, ◌-◌, ◌≤◌, ◌<◌, ◌≡◌, ◌⊎◌, inl, inr, refl, arith, Bool, true, false,
}
use aetheria.Streaming.{
  Reader, copier, both_cut, HostBridge, reads_first, reads_second, Copier, copying, ended,
  signalled, Waiter, selecting, closing_first, closing_second, receiving, returned, Stream, begun,
  Own, unblocks, signals, wakes_on_exit, wakes_on_copy, closes_first, closes_second, receives, Step,
  own, copy_ends, shell_exits, Run, started, then_step,
}

abbrev signal : Copier → ℕ
signal copying = 0
signal ended = 0
signal signalled = 1

abbrev first_of : Waiter → ℕ
first_of selecting = 0
first_of closing_first = 0
first_of closing_second = 1
first_of receiving = 1
first_of returned = 1

abbrev second_of : Waiter → ℕ
second_of selecting = 0
second_of closing_first = 0
second_of closing_second = 0
second_of receiving = 1
second_of returned = 1

abbrev woken : Bool → ℕ
woken true = 0
woken false = 1

-- The signals that the function has received
abbrev received : Waiter → Bool → ℕ
received selecting b = 0
received closing_first b = woken b
received closing_second b = woken b
received receiving b = woken b
received returned b = woken b + 1

record Inv (s : Stream) : Type 0 where
  first : s.first_closes ≡ first_of s.waiter
  second : s.second_closes ≡ second_of s.waiter
  channel : s.tokens + received s.waiter s.by_exit ≡ signal s.first_reader + signal s.second_reader
  unwoken : s.waiter ≡ selecting → s.by_exit ≡ false

begun-Inv : Inv begun
begun-Inv = record { first = refl; second = refl; channel = refl; unwoken = λ e. refl }

Own-Inv : {cut : Reader → Bool} {s t : Stream} → Own cut s t → Inv s → Inv t
Own-Inv {cut} {s} (unblocks reads_first c at f g) h = ground arith
Own-Inv {cut} {s} (unblocks reads_second c at f g) h = ground arith
Own-Inv {cut} {s} (signals reads_first at) h = ground arith
Own-Inv {cut} {s} (signals reads_second at) h = ground arith
Own-Inv {cut} {s} (wakes_on_exit at e) h = ground arith
Own-Inv {cut} {s} (wakes_on_copy n at t) h = ground arith
Own-Inv {cut} {s} (closes_first at) h = ground arith
Own-Inv {cut} {s} (closes_second at) h = ground arith
Own-Inv {cut} {s} (receives n at t) h = ground arith

Step-Inv : {shell : Bool} {cut : Reader → Bool} {s t : Stream} → Step shell cut s t → Inv s → Inv t
Step-Inv (own step) h = Own-Inv step h
Step-Inv {shell} {cut} {s} (copy_ends reads_first at) h = ground arith
Step-Inv {shell} {cut} {s} (copy_ends reads_second at) h = ground arith
Step-Inv {shell} {cut} {s} (shell_exits e f) h = ground arith

Run-Inv : {shell : Bool} {cut : Reader → Bool} {n : ℕ} {s : Stream} → Run shell cut n s → Inv s
Run-Inv started = begun-Inv
Run-Inv (then_step run step) = Step-Inv step (Run-Inv run)

-- The steps that are still to come
abbrev rank : Copier → ℕ
rank copying = 2
rank ended = 1
rank signalled = 0

abbrev waiter_rank : Waiter → ℕ
waiter_rank selecting = 4
waiter_rank closing_first = 3
waiter_rank closing_second = 2
waiter_rank receiving = 1
waiter_rank returned = 0

abbrev exit_rank : Bool → ℕ
exit_rank true = 0
exit_rank false = 1

abbrev size : Stream → ℕ
size s = rank s.first_reader + rank s.second_reader + waiter_rank s.waiter + exit_rank s.exited

Own-size : {cut : Reader → Bool} {s t : Stream} → Own cut s t → size t < size s
Own-size {cut} {s} (unblocks reads_first c at f g) = ground arith
Own-size {cut} {s} (unblocks reads_second c at f g) = ground arith
Own-size {cut} {s} (signals reads_first at) = ground arith
Own-size {cut} {s} (signals reads_second at) = ground arith
Own-size {cut} {s} (wakes_on_exit at e) = ground arith
Own-size {cut} {s} (wakes_on_copy n at t) = ground arith
Own-size {cut} {s} (closes_first at) = ground arith
Own-size {cut} {s} (closes_second at) = ground arith
Own-size {cut} {s} (receives n at t) = ground arith

Step-size :
    {shell : Bool} {cut : Reader → Bool} {s t : Stream} → Step shell cut s t → size t < size s
Step-size (own step) = Own-size step
Step-size {shell} {cut} {s} (copy_ends reads_first at) = ground arith
Step-size {shell} {cut} {s} (copy_ends reads_second at) = ground arith
Step-size {shell} {cut} {s} (shell_exits e f) = ground arith

Run-size :
    {shell : Bool} {cut : Reader → Bool} {n : ℕ} {s : Stream} → Run shell cut n s → n + size s ≤ 9
Run-size started = omega arith
Run-size (then_step run step) = omega (arith, Run-size run, Step-size step)

abbrev Next : (Reader → Bool) → Stream → Type 0
Next cut s = (t : Stream) × Own cut s t

-- The function has closed both connections once and has returned, and both goroutines are at their end.
abbrev pub AllDone : Stream → Type 0
AllDone s =
    (s.waiter ≡ returned)
    × (s.first_closes ≡ 1)
    × (s.second_closes ≡ 1)
    × (s.first_reader ≡ signalled)
    × (s.second_reader ≡ signalled)

-- Both directions are being copied, and the shell has not ended.
abbrev pub StillCopies : Stream → Type 0
StillCopies s =
    (s.waiter ≡ selecting)
    × (s.first_reader ≡ copying)
    × (s.second_reader ≡ copying)
    × (s.exited ≡ false)

-- Both connections were closed once, and a copy that Close does not end still runs.
abbrev pub Hangs : (Reader → Bool) → Stream → Type 0
Hangs cut s =
    (s.first_closes ≡ 1)
    × (s.second_closes ≡ 1)
    × ((d : Reader) × (copier d s ≡ copying) × (cut d ≡ false))

abbrev Rest : (Reader → Bool) → Stream → Type 0
Rest cut s = Next cut s ⊎ (AllDone s ⊎ (StillCopies s ⊎ Hangs cut s))

module _ (cut : Reader → Bool) where
  selecting-Rest :
      (s : Stream) (a b : Copier) (n : ℕ) (x : Bool)
      → s.waiter ≡ selecting
      → s.first_reader ≡ a
      → s.second_reader ≡ b
      → s.tokens ≡ n
      → s.exited ≡ x
      → Inv s
      → Rest cut s
  selecting-Rest s a b n true w f g t e h = inl (_, wakes_on_exit w e)
  selecting-Rest s a b (suc n) false w f g t e h = inl (_, wakes_on_copy n w t)
  selecting-Rest s ended b zero false w f g t e h = inl (_, signals reads_first f)
  selecting-Rest s copying ended zero false w f g t e h = inl (_, signals reads_second g)
  selecting-Rest s copying copying zero false w f g t e h = inr (inr (inl (w, f, g, e)))
  selecting-Rest s copying signalled zero false w f g t e h = ground arith
  selecting-Rest s signalled ended zero false w f g t e h = inl (_, signals reads_second g)
  selecting-Rest s signalled copying zero false w f g t e h = ground arith
  selecting-Rest s signalled signalled zero false w f g t e h = ground arith

  -- Behind both calls of Close: a step, the end of both goroutines, or a copy that goes on
  abbrev Closed : Stream → Type 0
  Closed s =
      Next cut s ⊎ (((s.first_reader ≡ signalled) × (s.second_reader ≡ signalled)) ⊎ Hangs cut s)

  copying-Closed :
      (s : Stream) (d : Reader) (b : Bool)
      → cut d ≡ b
      → copier d s ≡ copying
      → s.first_closes ≡ 1
      → s.second_closes ≡ 1
      → Closed s
  copying-Closed s d true h at f g = inl (_, unblocks d h at (omega arith) (omega arith))
  copying-Closed s d false h at f g = inr (inr (f, g, (d, at, h)))

  settled-Closed :
      (s : Stream) (a b : Copier)
      → s.first_reader ≡ a
      → s.second_reader ≡ b
      → s.first_closes ≡ 1
      → s.second_closes ≡ 1
      → Closed s
  settled-Closed s copying b f g c d = copying-Closed s reads_first _ refl f c d
  settled-Closed s ended b f g c d = inl (_, signals reads_first f)
  settled-Closed s signalled copying f g c d = copying-Closed s reads_second _ refl g c d
  settled-Closed s signalled ended f g c d = inl (_, signals reads_second g)
  settled-Closed s signalled signalled f g c d = inr (inl (f, g))

  receiving-Rest : (s : Stream) → s.waiter ≡ receiving → Inv s → Closed s → Rest cut s
  receiving-Rest s w h (inl next) = inl next
  receiving-Rest s w h (inr (inr hangs)) = inr (inr (inr hangs))
  receiving-Rest s w h (inr (inl (f, g))) = inl (_, receives (1 - woken s.by_exit) w (ground arith))

  returned-Rest : (s : Stream) → s.waiter ≡ returned → Inv s → Closed s → Rest cut s
  returned-Rest s w h (inl next) = inl next
  returned-Rest s w h (inr (inr hangs)) = inr (inr (inr hangs))
  returned-Rest s w h (inr (inl (f, g))) = inr (inl (ground arith))

  Inv-Rest : (s : Stream) (w : Waiter) → s.waiter ≡ w → Inv s → Rest cut s
  Inv-Rest s selecting e h =
      selecting-Rest s s.first_reader s.second_reader s.tokens s.exited e refl refl refl refl h
  Inv-Rest s closing_first e h = inl (_, closes_first e)
  Inv-Rest s closing_second e h = inl (_, closes_second e)
  Inv-Rest s receiving e h =
      receiving-Rest s e h
        (settled-Closed s s.first_reader s.second_reader refl refl (ground arith) (ground arith))
  Inv-Rest s returned e h =
      returned-Rest s e h
        (settled-Closed s s.first_reader s.second_reader refl refl (ground arith) (ground arith))

  not_next :
      (s : Stream)
      → ((t : Stream) → ¬ Own cut s t)
      → Rest cut s
      → AllDone s ⊎ (StillCopies s ⊎ Hangs cut s)
  not_next s stuck (inl (t, step)) = absurd (stuck t step)
  not_next s stuck (inr rest) = rest

-- Whatever the order of the steps, and whichever copies are ended by Close, a stream makes at most nine;
-- and where the program can do nothing more, either both directions are still being copied and the shell
-- has not ended, or the function has returned behind one call of Close for each connection, and both
-- goroutines are at their end, or each connection was closed once and a copy still runs that Close does
-- not end.
pub Run-rests :
    {shell : Bool} {cut : Reader → Bool} {n : ℕ} {s : Stream}
    → Run shell cut n s
    → ((t : Stream) → ¬ Own cut s t)
    → (n ≤ 9) × (AllDone s ⊎ (StillCopies s ⊎ Hangs cut s))
Run-rests {shell} {cut} {n} {s} run stuck =
    (omega (arith, Run-size run), not_next cut s stuck (Inv-Rest cut s s.waiter refl (Run-Inv run)))

-- Whatever the order of the steps, a bridge of the host makes at most nine; and where the program can do
-- nothing more, either both directions are still being copied, or the function has returned behind one
-- call of Close for each connection, and both goroutines are at their end. Close ends a copy between two
-- sockets.
pub HostBridge-rests :
    {n : ℕ} {s : Stream}
    → HostBridge n s
    → ((t : Stream) → ¬ Own both_cut s t)
    → (n ≤ 9) × (AllDone s ⊎ StillCopies s)
HostBridge-rests run stuck =
    let (few, rests) = Run-rests run stuck in
    (
      few,
      elim rests [
        | inl done ↦ inl done
        | inr (inl copies) ↦ inr copies
        | inr (inr (f, g, (d, at, not_cut))) ↦ cc not_cut
      ],
    )
