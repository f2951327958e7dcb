-- ===== src/Text/Scan.antt =====
-- fmt.Sscanf with the format "%d": leading spaces are skipped, a newline there is an error, then come
-- the digits; what follows them is not read.
use aetheria.Prelude.{
  ℕ, ◌-◌, ◌^◌, ◌<◌, ◌≡◌, Bool, true, false, Option, none, some, [], ◌∷◌, ◌++◌, arith, ltb, leb,
  ◌==◌, if◌then◌else◌, Bytes,
}
use aetheria.Prelude.Int.{ℤ, pos, negsuc}
use aetheria.Text.Search.{is_space}
use aetheria.Text.Decimal.{decimal, scan, starts_digit, scan-decimal, starts_digit-decimal}

unfoldable pub skip_spaces : Bytes → Option Bytes
unfolding is_space
skip_spaces [] = some []
skip_spaces (c ∷ s) =
    if c == b'\n' then none else if is_space c then skip_spaces s else some (c ∷ s)

-- The digits at the start of the text, if there are any.
unfoldable pub scan_digits : Bytes → Option ℕ
scan_digits s = if starts_digit s then some (scan s 0).0 else none

-- Into a uint16: a number above its range is an error.
unfoldable pub scan_uint16 : Bytes → Option ℕ
unfolding skip_spaces scan_digits
scan_uint16 s = elim (skip_spaces s) [
  | none ↦ none
  | some t ↦ elim (scan_digits t) [ none ↦ none | some n ↦ if ltb n (2 ^ 16) then some n else none ]
]

abbrev pub in_int64 : Bool → ℕ → Option ℤ
in_int64 true n =
    if leb n (2 ^ 63) then (if n == 0 then some (pos 0) else some (negsuc (n - 1))) else none
in_int64 false n = if ltb n (2 ^ 63) then some (pos n) else none

abbrev of_digits : Bool → Bytes → Option ℤ
of_digits minus s = elim (scan_digits s) [ none ↦ none | some n ↦ in_int64 minus n ]

-- With an optional sign
unfoldable pub scan_signed : Bytes → Option ℤ
scan_signed [] = none
scan_signed (c ∷ s) =
    if c == b'-'
    then of_digits true s
    else if c == b'+'
    then of_digits false s
    else of_digits false (c ∷ s)

-- Into an int64: a number outside its range is an error.
unfoldable pub scan_int64 : Bytes → Option ℤ
unfolding skip_spaces scan_digits scan_signed
scan_int64 s = elim (skip_spaces s) [ none ↦ none | some t ↦ scan_signed t ]

skip_spaces-digit : (s : Bytes) → starts_digit s ≡ true → skip_spaces s ≡ some s
unfolding skip_spaces
skip_spaces-digit [] h = cc
skip_spaces-digit (c ∷ s) h = ground arith

scan_signed-digit : (s : Bytes) → starts_digit s ≡ true → scan_signed s ≡ of_digits false s
unfolding scan_signed
scan_signed-digit [] h = cc
scan_signed-digit (c ∷ s) h = ground arith

-- A port that is read is below 2 ^ 16.
pub scan_uint16-bound : (s : Bytes) (n : ℕ) → scan_uint16 s ≡ some n → n < 2 ^ 16
unfolding scan_uint16
scan_uint16-bound s n h = ground arith

module _ (n : ℕ) (rest : Bytes) (end : starts_digit rest ≡ false) where
  scan_digits-decimal : scan_digits (decimal n ++ rest) ≡ some n
  unfolding scan_digits
  scan_digits-decimal = rw (starts_digit-decimal n rest) (ground (arith, scan-decimal n rest end))

  skip_spaces-decimal : skip_spaces (decimal n ++ rest) ≡ some (decimal n ++ rest)
  skip_spaces-decimal = skip_spaces-digit (decimal n ++ rest) (starts_digit-decimal n rest)

  -- A port is read back from its decimal print, whatever follows that is no digit.
  pub scan_uint16-decimal : n < 2 ^ 16 → scan_uint16 (decimal n ++ rest) ≡ some n
  unfolding scan_uint16
  scan_uint16-decimal fits =
      rw (skip_spaces-decimal, scan_uint16, scan_digits-decimal) (ground arith)

  pub scan_int64-decimal : n < 2 ^ 63 → scan_int64 (decimal n ++ rest) ≡ some (pos n)
  unfolding scan_int64
  scan_int64-decimal fits =
      rw
        (
          skip_spaces-decimal,
          scan_int64,
          scan_signed-digit (decimal n ++ rest) (starts_digit-decimal n rest),
          of_digits,
          scan_digits-decimal,
        )
        (ground arith)
