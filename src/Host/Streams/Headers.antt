-- ===== src/Host/Streams/Headers.antt =====
-- The header lines of the agent's connections (main.go): readLineRaw.
use aetheria.Prelude.{
  ◌+◌, ◌≤◌, ◌≡◌, refl, some, [], ◌∷◌, ◌++◌, arith, Bytes, ltb, ◌==◌, length, length-append,
  append_assoc, append-nil, sym, ap, Bool-cases, inl, inr,
}
use aetheria.Text.{Lacks, trim_space}
use aetheria.Host.Streams.{read_line_raw}

read_line_raw-more :
    (buf line rest : Bytes)
    → Lacks b'\n' line
    → length buf + length line ≤ 256
    → read_line_raw buf (line ++ b'\n' ∷ rest) ≡ (some (trim_space (buf ++ line)), rest)
unfolding read_line_raw
read_line_raw-more buf [] rest lacks fits =
    ap (λ (s : Bytes). (some (trim_space s), rest)) (sym (append-nil buf))
read_line_raw-more buf (b ∷ line) rest (other, lacks) fits =
    let longer = buf ++ b ∷ [] in
    let size : length longer ≡ length buf + 1 = length-append buf (b ∷ []) in
    let next = read_line_raw-more longer line rest lacks (omega (arith, size, fits)) in
    ground (arith, next, append_assoc buf (b ∷ []) line, other, fits)

-- A line of at most 256 bytes is read without the spaces around it, and what follows its end stays on
-- the connection, byte for byte.
pub read_line_raw-header :
    (line rest : Bytes)
    → Lacks b'\n' line
    → length line ≤ 256
    → read_line_raw [] (line ++ b'\n' ∷ rest) ≡ (some (trim_space line), rest)
read_line_raw-header line rest lacks fits = read_line_raw-more [] line rest lacks (omega arith)

-- Whatever comes over the connection, what is read is taken from its beginning, and is no more than the
-- 257 bytes less what was read before.
pub read_line_raw-Bounded :
    (buf input : Bytes)
    → length buf ≤ 256
    → (used : Bytes) × (input ≡ used ++ (read_line_raw buf input).1)
      × (length used + length buf ≤ 257)
unfolding read_line_raw
read_line_raw-Bounded buf [] fits = ([], refl, omega arith)
read_line_raw-Bounded buf (b ∷ input) fits =
    let longer = buf ++ b ∷ [] in
    let size : length longer ≡ length buf + 1 = length-append buf (b ∷ []) in
    elim (Bool-cases (b == b'\n')) [
      | inl end ↦ (b ∷ [], rw end refl, omega arith)
      | inr more ↦ elim (Bool-cases (ltb 256 (length buf + 1))) [
        | inl full ↦ (b ∷ [], rw more (rw full refl), omega arith)
        | inr room ↦
            let (used, same_input, few) =
              read_line_raw-Bounded longer input (ground (arith, size, room)) in
            (
              b ∷ used,
              rw more (rw room (ap (λ (l : Bytes). b ∷ l) same_input)),
              omega (arith, few, size),
            )
      ]
    ]
