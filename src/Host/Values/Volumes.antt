-- ===== src/Host/Values/Volumes.antt =====
-- Volumes, written and read back.
use aetheria.Prelude.{
  ◌≡◌, Bool, true, false, ◌∷◌, ◌++◌, arith, Bytes, codes, ok, bytes_dec, ℕ_discrete,
}
use aetheria.Text.{split_n, cut-append, cut-Lacks, Lacks}
use aetheria.Host.Values.{parse_volume_mount}

-- The text of an option for a volume: `host:container`, with `:ro` if it is only read
abbrev pub show_mode : Bytes → Bool → Bytes
show_mode inside true = inside ++ b':' ∷ codes "ro"
show_mode inside false = inside

-- A volume whose two paths hold no colon is read back from its text.
pub parse_volume_mount-show :
    (host inside : Bytes) (read_only : Bool)
    → Lacks b':' host
    → Lacks b':' inside
    → parse_volume_mount (host ++ b':' ∷ show_mode inside read_only)
      ≡ ok (record { host_path = host; container_path = inside; read_only = read_only })
unfolding parse_volume_mount split_n bytes_dec ℕ_discrete
parse_volume_mount-show host inside true h i = ground (
  arith,
  cut-append host (inside ++ b':' ∷ codes "ro") b':' h,
  cut-append inside (codes "ro") b':' i,
)
parse_volume_mount-show host inside false h i =
    ground (arith, cut-append host inside b':' h, cut-Lacks inside b':' i)
