-- ===== src/Host/Options/Names.antt =====
-- The name that `aetheria create` gives a container.
use aetheria.Prelude.{
  ℕ, ◌≡◌, ◌≢◌, refl, sym, ◌∙◌, Bool, true, false, Option, List, [], ◌∷◌, arith, Bytes, Result, ok,
  err, and_then, if◌then◌else◌,
}
use aetheria.Host.Values.{CliError}
use aetheria.Host.Options.{
  CreateOptions, option, flag, parse_options, create_options, derive_name, positional, add_port,
  add_env, add_volume, is_flag, default_options,
}

-- The name is not the image's, and neither of them changes.
abbrev Keeps : CreateOptions → Result CliError CreateOptions → Type 0
Keeps o r = (o' : CreateOptions) → r ≡ ok o' → (o'.name ≡ o.name) × (o'.image ≡ o.image)

and_then-Keeps :
    (o : CreateOptions) (r : Result CliError CreateOptions)
    (f : CreateOptions → Result CliError CreateOptions)
    → Keeps o r
    → ((o' : CreateOptions) → r ≡ ok o' → Keeps o' (f o'))
    → Keeps o (and_then r f)
and_then-Keeps o (err e) f first rest o'' h = cc
and_then-Keeps o (ok o') f first rest o'' h = ground (arith, first o' refl, rest o' refl o'' h)

ok-Keeps : (o o' : CreateOptions) → o'.name ≡ o.name → o'.image ≡ o.image → Keeps o (ok o')
ok-Keeps o o' n i o'' h = ground arith

add_port-Keeps : (o : CreateOptions) (v : Bytes) → Keeps o (add_port o v)
unfolding add_port
add_port-Keeps o v o' h = ground arith

add_env-Keeps : (o : CreateOptions) (v : Bytes) → Keeps o (add_env o v)
unfolding add_env
add_env-Keeps o v o' h = ground arith

add_volume-Keeps : (o : CreateOptions) (v : Bytes) → Keeps o (add_volume o v)
unfolding add_volume
add_volume-Keeps o v o' h = ground arith

positional-Keeps : (o : CreateOptions) (v : Bytes) → o.name ≢ o.image → Keeps o (positional o v)
unfolding positional
positional-Keeps o v ne o' h = ground arith

if-Keeps :
    (o : CreateOptions) (b : Bool) (r s : Result CliError CreateOptions)
    → Keeps o r
    → Keeps o s
    → Keeps o (if b then r else s)
if-Keeps o true r s hr hs = hr
if-Keeps o false r s hr hs = hs

stays :
    (o o' : CreateOptions)
    → o.name ≢ o.image
    → (o'.name ≡ o.name) × (o'.image ≡ o.image)
    → o'.name ≢ o'.image
stays o o' ne (n, i) e = ne (sym n ∙ e ∙ i)

module _ (scan_float : Bytes → Option ℕ) where
  option-Keeps :
      (o : CreateOptions) (a : Bytes) → o.name ≢ o.image → Keeps o (option scan_float o a)
  unfolding option
  option-Keeps o a ne =
      search (if-Keeps, ok-Keeps, add_port-Keeps, add_env-Keeps, add_volume-Keeps, positional-Keeps)
        depth 14

  flag-Keeps : (o : CreateOptions) (a v : Bytes) → Keeps o (flag scan_float o a v)
  unfolding flag
  flag-Keeps o a v = search (if-Keeps, add_port-Keeps, add_env-Keeps, add_volume-Keeps)

  parse_options-Keeps :
      (o : CreateOptions) (args : List Bytes)
      → o.name ≢ o.image
      → Keeps o (parse_options scan_float o args)
  unfolding parse_options
  parse_options-Keeps o [] ne o' h = ground arith
  parse_options-Keeps o (a ∷ []) ne o' h = option-Keeps o a ne o' h
  parse_options-Keeps o (a ∷ v ∷ rest) ne o' h =
      if-Keeps o (is_flag a)
        (and_then (flag scan_float o a v) (λ o'. parse_options scan_float o' rest))
        (and_then (option scan_float o a) (λ o'. parse_options scan_float o' (v ∷ rest)))
        (and_then-Keeps o (flag scan_float o a v) (λ o'. parse_options scan_float o' rest)
          (flag-Keeps o a v)
          (λ o' e. parse_options-Keeps o' rest (stays o o' ne (flag-Keeps o a v o' e))))
        (and_then-Keeps o (option scan_float o a) (λ o'. parse_options scan_float o' (v ∷ rest))
          (option-Keeps o a ne)
          (λ o' e. parse_options-Keeps o' (v ∷ rest) (stays o o' ne (option-Keeps o a ne o' e))))
        o' h

  -- Where the name that is derived from the image is not the image itself, every command line that
  -- is accepted gives the container the derived name.
  pub create_options-derived_name :
      (image : Bytes) (args : List Bytes) (o : CreateOptions)
      → derive_name image ≢ image
      → create_options scan_float image args ≡ ok o
      → o.name ≡ derive_name image
  unfolding create_options
  create_options-derived_name image args o ne h =
      (parse_options-Keeps (default_options image) args ne o h).0
