-- ===== src/Examples/Bridges.antt =====
-- The end of a tunnel and of a shell's stream, step by step.
use aetheria.Prelude.{◌≤◌, ◌⊎◌, refl, arith}
use aetheria.Agent.PortForward.Bridge.{
  Bridge, to_container, to_vsock, copying, signalled, finished, Own, unblocks, enters, closes_vsock,
  closes_container, passes, signals, receives, own, copy_ends, Run, started, then_step,
}
use aetheria.Agent.PortForward.Bridge.Closes.{Returned, BothCopy, Run-ends}

abbrev over : Bridge
over = record {
  container_side = signalled;
  vsock_side = signalled;
  once = finished;
  tokens = 0;
  awaited = 0;
  vsock_closes = 1;
  container_closes = 1;
}

abbrev halfway : Bridge
halfway = record over { vsock_side = copying; awaited = 1 }

-- The client ends its direction; the other one is cut off.
Run-halfway : Run 6 halfway
Run-halfway =
    then_step
      (then_step
        (then_step
          (then_step
            (then_step (then_step started (copy_ends to_container refl))
              (own (enters to_container refl refl)))
            (own (closes_vsock to_container refl refl)))
          (own (closes_container to_container refl refl)))
        (own (signals to_container refl)))
      (own (receives 0 1 refl refl))

Run-over : Run 10 over
Run-over =
    then_step
      (then_step
        (then_step
          (then_step Run-halfway (own (unblocks to_vsock refl (omega arith) (omega arith))))
          (own (passes to_vsock refl refl)))
        (own (signals to_vsock refl)))
      (own (receives 0 0 refl refl))

over_rests : (t : Bridge) → ¬ Own over t
over_rests t (unblocks to_container at v c) = cc at
over_rests t (unblocks to_vsock at v c) = cc at
over_rests t (enters d at o) = cc o
over_rests t (closes_vsock d at o) = cc o
over_rests t (closes_container d at o) = cc o
over_rests t (passes to_container at o) = cc at
over_rests t (passes to_vsock at o) = cc at
over_rests t (signals to_container at) = cc at
over_rests t (signals to_vsock at) = cc at
over_rests t (receives n k t' a) = ground arith

Run-ends_example : (10 ≤ 10) × (Returned over ⊎ BothCopy over)
Run-ends_example = Run-ends Run-over over_rests
