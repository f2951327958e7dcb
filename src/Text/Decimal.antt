-- ===== src/Text/Decimal.antt =====
-- strconv.FormatInt and the `%d` of fmt: decimal print, and the digits that Sscanf reads back.
use aetheria.Prelude.{
  ℕ, zero, suc, ◌+◌, ◌-◌, ◌*◌, ◌/◌, ◌%◌, ◌≤◌, ◌<◌, ◌≡◌, ◌≢◌, refl, Bool, true, false, ◌&&◌, [], ◌∷◌,
  ◌++◌, arith, ltb, leb, if◌then◌else◌, Bytes, codes, All, length, append-nil, sym, ap, ◌∙◌,
}
use aetheria.Text.Search.{Lacks}

-- Digits in front of `out`; the fuel bounds the number of digits.
unfoldable pub emit : ℕ → ℕ → Bytes → Bytes
emit zero n out = out
emit (suc fuel) n out =
    let rest = emit fuel (n / 10) ((b'0' + n % 10) ∷ out) in
    if ltb n 10 then (b'0' + n) ∷ out else rest

-- `n` has at most `n + 1` digits.
unfoldable pub decimal : ℕ → Bytes
unfolding emit
decimal n = emit (suc n) n []

abbrev pub is_digit : ℕ → Bool
is_digit c = leb b'0' c && leb c b'9'

-- The number that the leading digits spell behind `n`, with no bound, and the unread rest.
unfoldable pub scan : Bytes → ℕ → ℕ × Bytes
scan [] n = (n, [])
scan (c ∷ s) n = if is_digit c then scan s (n * 10 + (c - b'0')) else (n, c ∷ s)

abbrev pub IsDigit : ℕ → Type 0
IsDigit c = (b'0' ≤ c) × (c ≤ b'9')

-- Does the text begin with a digit?
abbrev pub starts_digit : Bytes → Bool
starts_digit [] = false
starts_digit (c ∷ s) = is_digit c

scan-emit : (fuel n : ℕ) (out : Bytes) → n < fuel → scan (emit fuel n out) 0 ≡ scan out n
unfolding emit scan
scan-emit zero n out h = absurd (omega arith)
scan-emit (suc fuel) n out h = ground (arith, scan-emit fuel (n / 10) ((b'0' + n % 10) ∷ out))

emit-append : (fuel n : ℕ) (out more : Bytes) → emit fuel n out ++ more ≡ emit fuel n (out ++ more)
unfolding emit
emit-append zero n out more = refl
emit-append (suc fuel) n out more =
    ground (arith, emit-append fuel (n / 10) ((b'0' + n % 10) ∷ out) more)

-- The digits of a number are read back as that number, and what follows them is left.
pub scan-decimal :
    (n : ℕ) (rest : Bytes) → starts_digit rest ≡ false → scan (decimal n ++ rest) 0 ≡ (n, rest)
unfolding decimal scan
scan-decimal n [] h = ground (arith, scan-emit (suc n) n [], append-nil (emit (suc n) n []))
scan-decimal n (c ∷ s) h =
    ground (arith, scan-emit (suc n) n (c ∷ s), emit-append (suc n) n [] (c ∷ s))

-- Different numbers have different prints.
pub decimal-injective : (n m : ℕ) → decimal n ≡ decimal m → n ≡ m
decimal-injective n m h =
    ap (λ (p : ℕ × Bytes). p.0)
      (sym (scan-decimal n [] refl) ∙ ap (λ s. scan (s ++ []) 0) h ∙ scan-decimal m [] refl)

emit-IsDigit : (fuel n : ℕ) (out : Bytes) → All IsDigit out → All IsDigit (emit fuel n out)
unfolding emit
emit-IsDigit zero n out h = h
emit-IsDigit (suc fuel) n out h = ground (arith, emit-IsDigit fuel (n / 10) ((b'0' + n % 10) ∷ out))

-- A decimal print holds digits only.
pub decimal-IsDigit : (n : ℕ) → All IsDigit (decimal n)
unfolding decimal
decimal-IsDigit n = emit-IsDigit (suc n) n [] tt

emit-ne-nil : (fuel n : ℕ) (out : Bytes) → out ≢ [] → emit fuel n out ≢ []
unfolding emit
emit-ne-nil zero n out h = h
emit-ne-nil (suc fuel) n out h = ground (arith, emit-ne-nil fuel (n / 10) ((b'0' + n % 10) ∷ out))

pub decimal-ne-nil : (n : ℕ) → decimal n ≢ []
unfolding decimal
decimal-ne-nil n = ground (arith, emit-ne-nil n (n / 10) ((b'0' + n % 10) ∷ []))

starts_digit-IsDigit : (d s : Bytes) → d ≢ [] → All IsDigit d → starts_digit (d ++ s) ≡ true
starts_digit-IsDigit [] s h _ = absurd (h refl)
starts_digit-IsDigit (c ∷ d) s h (hc, _) = ground arith

pub starts_digit-decimal : (n : ℕ) (s : Bytes) → starts_digit (decimal n ++ s) ≡ true
starts_digit-decimal n s = starts_digit-IsDigit (decimal n) s (decimal-ne-nil n) (decimal-IsDigit n)

decimal_ports : decimal 8080 ≡ codes "8080"
unfolding decimal
decimal_ports = refl

-- At most `d + 1` digits
abbrev pub HasDigits : ℕ → ℕ → Type 0
HasDigits zero n = n < 10
HasDigits (suc d) n = HasDigits d (n / 10)

HasDigits-div : (d n : ℕ) → HasDigits d n → HasDigits d (n / 10)
HasDigits-div zero n h = omega arith
HasDigits-div (suc d) n h = HasDigits-div d (n / 10) h

length-emit :
    (fuel d n : ℕ) (out : Bytes) → HasDigits d n → length (emit fuel n out) ≤ length out + d + 1
unfolding emit
length-emit zero d n out h = omega arith
length-emit (suc fuel) zero n out h = ground (arith, h)
length-emit (suc fuel) (suc d) n out h =
    ground (arith, length-emit fuel d (n / 10) ((b'0' + n % 10) ∷ out) h)

pub length-decimal : (d n : ℕ) → HasDigits d n → length (decimal n) ≤ d + 1
unfolding decimal
length-decimal d n h = ground (arith, length-emit (suc n) d n [] h)

-- A byte that is no digit stands in no number.
pub IsDigit-Lacks : (b : ℕ) (s : Bytes) → is_digit b ≡ false → All IsDigit s → Lacks b s
IsDigit-Lacks b [] other h = tt
IsDigit-Lacks b (c ∷ s) other (hc, hs) = (λ e. ground (arith, other), IsDigit-Lacks b s other hs)
