-- ===== src/Examples/Endings.antt =====
-- The end of a shell's stream, step by step: the shell exits.
use aetheria.Prelude.{◌≤◌, ◌⊎◌, refl, true, false, arith}
use aetheria.Streaming.{
  Stream, reads_first, reads_second, copying, signalled, receiving, returned, Own, unblocks,
  signals, wakes_on_exit, wakes_on_copy, closes_first, closes_second, receives, own, copy_ends,
  shell_exits, HostBridge, StreamTo, both_cut, started, then_step,
}
use aetheria.Streaming.Ends.{AllDone, StillCopies, Hangs, Run-rests, HostBridge-rests}

abbrev over : Stream
over = record {
  first_reader = signalled;
  second_reader = signalled;
  waiter = returned;
  exited = true;
  by_exit = true;
  tokens = 1;
  first_closes = 1;
  second_closes = 1;
}

abbrev closed : Stream
closed = record over {
  first_reader = copying;
  second_reader = copying;
  waiter = receiving;
  tokens = 0;
}

to_closed : StreamTo both_cut 4 closed
to_closed =
    then_step
      (then_step
        (then_step (then_step started (shell_exits refl refl)) (own (wakes_on_exit refl refl)))
        (own (closes_first refl)))
      (own (closes_second refl))

run_over : StreamTo both_cut 9 over
run_over =
    then_step
      (then_step
        (then_step
          (then_step
            (then_step to_closed (own (unblocks reads_first refl refl (omega arith) (omega arith))))
            (own (signals reads_first refl)))
          (own (receives 0 refl refl)))
        (own (unblocks reads_second refl refl (omega arith) (omega arith))))
      (own (signals reads_second refl))

over_rests : (t : Stream) → ¬ Own both_cut over t
over_rests t (unblocks reads_first c at f g) = cc at
over_rests t (unblocks reads_second c at f g) = cc at
over_rests t (signals reads_first at) = cc at
over_rests t (signals reads_second at) = cc at
over_rests t (wakes_on_exit at e) = cc at
over_rests t (wakes_on_copy n at t') = cc at
over_rests t (closes_first at) = cc at
over_rests t (closes_second at) = cc at
over_rests t (receives n at t') = cc at

Run-rests_example : (9 ≤ 9) × (AllDone over ⊎ (StillCopies over ⊎ Hangs both_cut over))
Run-rests_example = Run-rests run_over over_rests

abbrev bridge_over : Stream
bridge_over = record over { exited = false; by_exit = false; tokens = 0 }

abbrev bridge_closed : Stream
bridge_closed = record bridge_over { second_reader = copying; waiter = receiving }

-- One end of a forwarded port is closed.
to_bridge_closed : HostBridge 5 bridge_closed
to_bridge_closed =
    then_step
      (then_step
        (then_step
          (then_step (then_step started (copy_ends reads_first refl))
            (own (signals reads_first refl)))
          (own (wakes_on_copy 0 refl refl)))
        (own (closes_first refl)))
      (own (closes_second refl))

run_bridge_over : HostBridge 8 bridge_over
run_bridge_over =
    then_step
      (then_step
        (then_step to_bridge_closed
          (own (unblocks reads_second refl refl (omega arith) (omega arith))))
        (own (signals reads_second refl)))
      (own (receives 0 refl refl))

bridge_over_rests : (t : Stream) → ¬ Own both_cut bridge_over t
bridge_over_rests t (unblocks reads_first c at f g) = cc at
bridge_over_rests t (unblocks reads_second c at f g) = cc at
bridge_over_rests t (signals reads_first at) = cc at
bridge_over_rests t (signals reads_second at) = cc at
bridge_over_rests t (wakes_on_exit at e) = cc at
bridge_over_rests t (wakes_on_copy n at t') = cc at
bridge_over_rests t (closes_first at) = cc at
bridge_over_rests t (closes_second at) = cc at
bridge_over_rests t (receives n at t') = cc at

HostBridge-rests_example : (8 ≤ 9) × (AllDone bridge_over ⊎ StillCopies bridge_over)
HostBridge-rests_example = HostBridge-rests run_bridge_over bridge_over_rests
