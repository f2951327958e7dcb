-- ===== src/Host/Options/Ports.antt =====
-- Port options, written and read back.
use aetheria.Prelude.{
  ℕ, ◌≡◌, refl, true, Option, List, [], ◌∷◌, ◌++◌, Bytes, codes, All, ok, append-nil, append_assoc,
  bytes_dec, ℕ_discrete,
}
use aetheria.Text.Decimal.{decimal}
use aetheria.Agent.Types.{PortMapping}
use aetheria.Host.Values.{tcp}
use aetheria.Host.Values.Ports.{IsPort, parse_port_mapping-show}
use aetheria.Host.Options.{CreateOptions, parse_options, is_flag, flag, add_port}

-- Two ports, and the text of an option for them
abbrev pub show_port : ℕ × ℕ → Bytes
show_port (hp, cp) = decimal hp ++ b':' ∷ decimal cp

abbrev pub port_args : List (ℕ × ℕ) → List Bytes
port_args [] = []
port_args (p ∷ ps) = codes "-p" ∷ show_port p ∷ port_args ps

abbrev pub mappings : List (ℕ × ℕ) → List PortMapping
mappings [] = []
mappings ((hp, cp) ∷ ps) =
    (record { host_port = hp; container_port = cp; protocol = tcp }) ∷ mappings ps

abbrev pub ArePorts : ℕ × ℕ → Type 0
ArePorts (hp, cp) = IsPort hp × IsPort cp

is_flag-p : is_flag (codes "-p") ≡ true
unfolding is_flag bytes_dec ℕ_discrete
is_flag-p = refl

module _ (scan_float : Bytes → Option ℕ) where
  flag-p : (o : CreateOptions) (v : Bytes) → flag scan_float o (codes "-p") v ≡ add_port o v
  unfolding flag bytes_dec ℕ_discrete
  flag-p o v = refl

  add_port-show :
      (o : CreateOptions) (p : ℕ × ℕ)
      → ArePorts p
      → add_port o (show_port p) ≡ ok (record o { ports = o.ports ++ mappings (p ∷ []) })
  unfolding add_port
  add_port-show o (hp, cp) (h, c) = rw (parse_port_mapping-show hp cp h c) refl

  -- Options for ports from 1 to 65535, written out one after the other, are all read, in their
  -- order, behind the ports that were there, and the arguments that follow are read as they would
  -- be alone.
  pub parse_options-port_args :
      (ps : List (ℕ × ℕ)) (o : CreateOptions) (rest : List Bytes)
      → All ArePorts ps
      → parse_options scan_float o (port_args ps ++ rest)
        ≡ parse_options scan_float (record o { ports = o.ports ++ mappings ps }) rest
  unfolding parse_options
  parse_options-port_args [] o rest hs = rw (append-nil o.ports) refl
  parse_options-port_args (p ∷ ps) o rest (h, hs) =
      let o' : CreateOptions = record o { ports = o.ports ++ mappings (p ∷ []) } in
      rw
        (
          is_flag-p,
          flag-p o (show_port p),
          add_port-show o p h,
          parse_options-port_args ps o' rest hs,
          append_assoc o.ports (mappings (p ∷ [])) (mappings ps),
        )
        refl
