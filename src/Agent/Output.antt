-- ===== src/Agent/Output.antt =====
-- `limitedWriter` of cmd/aetheria-agent/main.go: command output, cut at a limit.
pub mod Bounds
use aetheria.Prelude.{
  ℕ, zero, suc, ◌+◌, ◌-◌, ◌*◌, Bool, true, false, List, [], ◌∷◌, ◌++◌, Bytes, codes, if◌then◌else◌,
  ltb, leb, length, take,
}

pub record LimitedWriter : Type 0 where
  pub buf : Bytes
  pub limit : ℕ
  pub truncated : Bool

-- Write: the new writer, and the number of bytes that it reports as written.
unfoldable pub write : LimitedWriter → Bytes → LimitedWriter × ℕ
write w p =
    let remaining = w.limit - length w.buf in
    if leb w.limit (length w.buf)
    then (record w { truncated = true }, length p)
    else if ltb remaining (length p)
    then (record w { buf = w.buf ++ take remaining p; truncated = true }, length p)
    else (record w { buf = w.buf ++ p }, length p)

unfoldable pub write_all : LimitedWriter → List Bytes → LimitedWriter
write_all w [] = w
write_all w (p ∷ ps) = write_all (write w p).0 ps

abbrev pub truncation_note : Bytes
truncation_note = codes "\n... [output truncated at 10MB]"

unfoldable pub show : LimitedWriter → Bytes
show w = if w.truncated then w.buf ++ truncation_note else w.buf

abbrev pub max_output : ℕ
max_output = 10 * 1024 * 1024

abbrev pub empty_writer : ℕ → LimitedWriter
empty_writer limit = record { buf = []; limit = limit; truncated = false }

-- The text of a command's output, written in parts.
unfoldable pub captured : List Bytes → Bytes
unfolding write_all
captured parts = show (write_all (empty_writer max_output) parts)
