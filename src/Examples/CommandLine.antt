-- ===== src/Examples/CommandLine.antt =====
-- The theorems of the command line at concrete inputs.
use aetheria.Prelude.{ℕ, ◌^◌, ◌≡◌, refl, Option, none, [], ◌∷◌, ◌++◌, Bytes, codes, arith, inl}
use aetheria.Prelude.Int.{pos}
use aetheria.Text.Decimal.{decimal}
use aetheria.Host.Values.{parse_memory_size}
use aetheria.Host.Values.Sizes.{parse_memory_size-decimal}
use aetheria.Host.Options.{parse_options, default_options, CreateOptions}
use aetheria.Host.Options.Ports.{parse_options-port_args, port_args, mappings}

-- 17179869184g, which is 2 ^ 64 bytes
parse_memory_size-decimal_example : parse_memory_size (decimal 17179869184 ++ b'g' ∷ []) ≡ pos 0
parse_memory_size-decimal_example =
    parse_memory_size-decimal 17179869184 b'g' (2 ^ 30) (omega arith) (inl (refl, refl))

abbrev no_float : Bytes → Option ℕ
no_float s = none

abbrev web_options : CreateOptions
web_options = record (default_options (codes "nginx:1.25")) { name = codes "nginx" }

parse_options-port_args_example :
    parse_options no_float web_options
      (port_args ((8080, 80) ∷ (8443, 443) ∷ []) ++ codes "--net=host" ∷ [])
    ≡ parse_options no_float
        (record web_options { ports = [] ++ mappings ((8080, 80) ∷ (8443, 443) ∷ []) })
        (codes "--net=host" ∷ [])
parse_options-port_args_example =
    parse_options-port_args no_float ((8080, 80) ∷ (8443, 443) ∷ []) web_options
      (codes "--net=host" ∷ [])
      (
        ((omega arith, omega arith), (omega arith, omega arith)),
        (((omega arith, omega arith), (omega arith, omega arith)), tt),
      )
