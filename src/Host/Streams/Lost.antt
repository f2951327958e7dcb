-- ===== src/Host/Streams/Lost.antt =====
-- Two connections of the agent under one header (main.go): the pending connections.
use aetheria.Prelude.{
  ℕ, ◌≡◌, ◌≢◌, refl, false, Option, none, some, [], arith, Bytes, ◌==◌, Dict, lookup, insert, erase,
  lookup-insert, lookup-erase, ap, sym, subst, Option-cases, inl, inr,
}
use aetheria.Host.Streams.{Waiting, Conns, read_line_raw, keep_stream, accept_stream, take_stream}

module _ {W : Type 0} (conns : Conns W) where
  -- What other goroutines do to the pending connections: another connection of the agent comes, or one
  -- is taken; and anything happens to the rest of the world.
  pub data Step (c : ℕ) (s : Waiting W) : Waiting W → Type 0 where
    arrived : (d : ℕ) (input : Bytes) → (d == c) ≡ false → Step c s (accept_stream conns d input s)
    taken : (key : Bytes) → Step c s (take_stream conns key s).1
    elsewhere : (w : W) → Step c s (record s { world = w })

  pub data Later (c : ℕ) (s : Waiting W) : Waiting W → Type 0 where
    here : Later c s s
    later : {t u : Waiting W} → Later c s t → Step c t u → Later c s u

  abbrev pub Absent : ℕ → Dict ℕ → Type 0
  Absent c pending = (k : Bytes) → lookup k pending ≢ some c

  insert-Absent :
      (c d : ℕ) (key : Bytes) (pending : Dict ℕ)
      → (d == c) ≡ false
      → Absent c pending
      → Absent c (insert key d pending)
  insert-Absent c d key pending other absent k h =
      ground (arith, lookup-insert k key d pending, absent k)

  erase-Absent :
      (c : ℕ) (key : Bytes) (pending : Dict ℕ) → Absent c pending → Absent c (erase key pending)
  erase-Absent c key pending absent k h = ground (arith, lookup-erase k key pending, absent k)

  kept-Absent :
      (c d : ℕ) (header : Option Bytes) (s : Waiting W)
      → (d == c) ≡ false
      → Absent c s.pending
      → Absent c (keep_stream conns d header s).pending
  kept-Absent c d none s other absent = absent
  kept-Absent c d (some key) s other absent = insert-Absent c d key s.pending other absent

  found-Absent :
      (c : ℕ) (key : Bytes) (s : Waiting W) (found : Option ℕ)
      → Absent c s.pending
      → let r : Option ℕ × Waiting W = elim found [
        | none ↦ (none, s)
        | some d ↦ (some d, record s { pending = erase key s.pending })
      ] in
        Absent c r.1.pending
  found-Absent c key s none absent = absent
  found-Absent c key s (some d) absent = erase-Absent c key s.pending absent

  take-Absent :
      (c : ℕ) (key : Bytes) (s : Waiting W)
      → Absent c s.pending
      → Absent c (take_stream conns key s).1.pending
  unfolding take_stream
  take-Absent c key s absent = found-Absent c key s (lookup key s.pending) absent

  Step-Absent : {c : ℕ} {s t : Waiting W} → Step c s t → Absent c s.pending → Absent c t.pending
  unfolding accept_stream
  Step-Absent {c} {s} (arrived d input other) absent =
      kept-Absent c d (read_line_raw [] input).0 s other absent
  Step-Absent {c} {s} (taken key) absent = take-Absent c key s absent
  Step-Absent (elsewhere w) absent = absent

  Later-Absent : {c : ℕ} {s t : Waiting W} → Later c s t → Absent c s.pending → Absent c t.pending
  Later-Absent here absent = absent
  Later-Absent (later run step) absent = Step-Absent step (Later-Absent run absent)

  overwritten-Absent :
      (c d : ℕ) (key : Bytes) (pending : Dict ℕ)
      → (d == c) ≡ false
      → Absent c pending
      → Absent c (insert key d (insert key c pending))
  overwritten-Absent c d key pending other absent k h =
      ground (
        arith,
        lookup-insert k key d (insert key c pending),
        lookup-insert k key c pending,
        absent k,
      )

  take-ne :
      (c : ℕ) (key : Bytes) (s : Waiting W)
      → Absent c s.pending
      → (take_stream conns key s).0 ≢ some c
  unfolding take_stream
  take-ne c key s absent h = elim (Option-cases (lookup key s.pending)) [
    | inl missing ↦ ground (arith, missing)
    | inr (d, found) ↦ ground (arith, found, absent key)
  ]

-- If another connection of the agent comes under the header of one that has just come, the first is
-- lost: while only other connections come, and others are taken, nobody who looks for a connection
-- ever gets it, and taking in the two has closed neither. The first was not waiting before.
pub accept_stream-lost :
    {W : Type 0} (conns : Conns W) (c d : ℕ) (key first second : Bytes) (s t : Waiting W)
    → (k : Bytes) → (d == c) ≡ false
    → Absent conns c s.pending
    → (read_line_raw [] first).0 ≡ some key
    → (read_line_raw [] second).0 ≡ some key
    → let s' = accept_stream conns d second (accept_stream conns c first s) in
      Later conns c s' t → (s'.world ≡ s.world) × ((take_stream conns k t).0 ≢ some c)
unfolding accept_stream
accept_stream-lost {W} conns c d key first second s t k other absent one two run =
    let s' = accept_stream conns d second (accept_stream conns c first s) in
    let both : s' ≡ record s { pending = insert key d (insert key c s.pending) } =
      rw one (rw two refl) in
    let gone : Absent conns c s'.pending =
      subst (λ (x : Waiting W). Absent conns c x.pending) (sym both)
        (overwritten-Absent conns c d key s.pending other absent) in
    (ap (λ (x : Waiting W). x.world) both, take-ne conns c k t (Later-Absent conns run gone))
