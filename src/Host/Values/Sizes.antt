-- ===== src/Host/Values/Sizes.antt =====
-- What a size of memory stands for.
use mathlib.Core.List.{reverse, reverse_aux, reverse-reverse}
use aetheria.Prelude.{
  ℕ, ◌*◌, ◌%◌, ◌-◌, ◌^◌, ◌≡◌, ◌<◌, refl, true, false, [], ◌∷◌, ◌++◌, arith, Bytes, codes, All,
  All-append, append-nil, subst, some, bytes_dec, ℕ_discrete, length, drop, leb, length-append,
  take-append, drop-append, same, inl, inr, ◌⊎◌,
}
use aetheria.Prelude.Int.{pos, signed64}
use aetheria.Text.{trim_left, trim_both, trim_space, to_lower, is_space, has_suffix}
use aetheria.Text.Decimal.{decimal, decimal-IsDigit, IsDigit}
use aetheria.Text.Scan.{scan_int64, scan_int64-decimal}
use aetheria.Host.Values.{parse_memory_size, size_of, but_last, times}

-- Neither white space nor a capital letter
abbrev pub IsPlainByte : ℕ → Type 0
IsPlainByte c = (is_space c ≡ false) × ((c < b'A') ⊎ (b'Z' < c))

abbrev pub ArePlain : Bytes → Type 0
ArePlain = All IsPlainByte

pub digits-ArePlain : (s : Bytes) → All IsDigit s → ArePlain s
unfolding is_space
digits-ArePlain [] h = tt
digits-ArePlain (c ∷ s) (hc, hs) = ((ground arith, inl (omega arith)), digits-ArePlain s hs)

trim_left-ArePlain : (s : Bytes) → ArePlain s → trim_left is_space s ≡ s
unfolding trim_left
trim_left-ArePlain [] h = refl
trim_left-ArePlain (c ∷ s) (hc, hs) = ground (arith, hc.0)

to_lower-ArePlain : (s : Bytes) → ArePlain s → to_lower s ≡ s
unfolding to_lower
to_lower-ArePlain [] h = refl
to_lower-ArePlain (c ∷ s) ((_, range), hs) = ground (arith, to_lower-ArePlain s hs)

reverse_aux-ArePlain : (s r : Bytes) → ArePlain s → ArePlain r → ArePlain (reverse_aux s r)
reverse_aux-ArePlain [] r hs hr = hr
reverse_aux-ArePlain (c ∷ s) r (hc, hs) hr = reverse_aux-ArePlain s (c ∷ r) hs (hc, hr)

pub trim_space-ArePlain : (s : Bytes) → ArePlain s → trim_space s ≡ s
unfolding trim_space trim_both
trim_space-ArePlain s h =
    rw
      (
        trim_left-ArePlain s h,
        trim_left-ArePlain (reverse s) (reverse_aux-ArePlain s [] h tt),
        reverse-reverse s,
      )
      refl

parse_memory_size-ArePlain : (s : Bytes) → ArePlain s → parse_memory_size s ≡ size_of s
unfolding parse_memory_size
parse_memory_size-ArePlain s h = rw (to_lower-ArePlain s h, trim_space-ArePlain s h) refl

-- The last byte of a text, and what stands before it
not_empty : (s : Bytes) (u : ℕ) → leb 1 (length (s ++ u ∷ [])) ≡ true
not_empty s u = ground (arith, length-append s (u ∷ []))

last-append : (s : Bytes) (u : ℕ) → drop (length (s ++ u ∷ []) - 1) (s ++ u ∷ []) ≡ u ∷ []
last-append s u = ground (arith, length-append s (u ∷ []), drop-append s (u ∷ []))

has_suffix-last : (s : Bytes) (u v : ℕ) → has_suffix (s ++ u ∷ []) (v ∷ []) ≡ same (u ∷ []) (v ∷ [])
unfolding has_suffix
has_suffix-last s u v = rw (last-append s u, not_empty s u) refl

but_last-append : (s : Bytes) (u : ℕ) → but_last (s ++ u ∷ []) ≡ s
but_last-append s u = ground (arith, length-append s (u ∷ []), take-append s (u ∷ []))

-- The units and what they multiply by
abbrev pub IsUnit : ℕ → ℕ → Type 0
IsUnit u m = ((u ≡ b'g') × (m ≡ 2 ^ 30)) ⊎ ((u ≡ b'm') × (m ≡ 2 ^ 20)) ⊎ ((u ≡ b'k') × (m ≡ 2 ^ 10))

module _ (s : Bytes) where
  size_of-g : size_of (s ++ codes "g") ≡ times s (2 ^ 30)
  unfolding size_of bytes_dec ℕ_discrete
  size_of-g = rw (has_suffix-last s b'g' b'g', but_last-append s b'g') refl

  size_of-m : size_of (s ++ codes "m") ≡ times s (2 ^ 20)
  unfolding size_of bytes_dec ℕ_discrete
  size_of-m =
      rw (has_suffix-last s b'm' b'g', has_suffix-last s b'm' b'm', but_last-append s b'm') refl

  size_of-k : size_of (s ++ codes "k") ≡ times s (2 ^ 10)
  unfolding size_of bytes_dec ℕ_discrete
  size_of-k =
      rw
        (
          has_suffix-last s b'k' b'g',
          has_suffix-last s b'k' b'm',
          has_suffix-last s b'k' b'k',
          but_last-append s b'k',
        )
        refl

size_of-unit : (s : Bytes) (u m : ℕ) → IsUnit u m → size_of (s ++ u ∷ []) ≡ times s m
size_of-unit s u m (inl (hu, hm)) = rw (hu, hm) (size_of-g s)
size_of-unit s u m (inr (inl (hu, hm))) = rw (hu, hm) (size_of-m s)
size_of-unit s u m (inr (inr (hu, hm))) = rw (hu, hm) (size_of-k s)

unit-IsPlain : (u m : ℕ) → IsUnit u m → IsPlainByte u
unfolding is_space
unit-IsPlain u m h = ground arith

scan-whole : (n : ℕ) → n < 2 ^ 63 → scan_int64 (decimal n) ≡ some (pos n)
scan-whole n fits =
    subst (λ t. scan_int64 t ≡ some (pos n)) (append-nil (decimal n))
      (scan_int64-decimal n [] refl fits)

-- A number below 2 ^ 63 with the unit g, m or k stands for that many bytes modulo 2 ^ 64, read as a
-- signed number of 64 bits.
pub parse_memory_size-decimal :
    (n u m : ℕ)
    → n < 2 ^ 63
    → IsUnit u m
    → parse_memory_size (decimal n ++ u ∷ []) ≡ signed64 ((n * m) % 2 ^ 64)
parse_memory_size-decimal n u m fits unit =
    rw
      (
        parse_memory_size-ArePlain (decimal n ++ u ∷ []) (
            All-append IsPlainByte (decimal n) (u ∷ [])
              (digits-ArePlain (decimal n) (decimal-IsDigit n)) (unit-IsPlain u m unit, tt)),
        size_of-unit (decimal n) u m unit,
        scan-whole n fits,
      )
      refl
