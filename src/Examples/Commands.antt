-- ===== src/Examples/Commands.antt =====
-- A run of `aetheria create` against a daemon that refuses the fourth request, the one for the ports.
use aetheria.Prelude.{ℕ, Bool, false, ◌==◌, if◌then◌else◌, Option, some, [], ◌∷◌, ◌+◌, Bytes, codes}
use aetheria.Host.Options.{CreateOptions, default_options}
use aetheria.Host.Options.Ports.{mappings}
use aetheria.Host.Commands.{Call, Sent}

abbrev fourth_refused : Call → ℕ → Option Bytes × ℕ
fourth_refused call n = (some (if n == 3 then codes "no space" else []), n + 1)

abbrev never_positive : ℕ → Bool
never_positive bits = false

abbrev alpine : CreateOptions
alpine = record (default_options (codes "alpine")) { ports = mappings ((8080, 80) ∷ []) }

abbrev fresh : Sent ℕ
fresh = record { world = 0; calls = [] }
