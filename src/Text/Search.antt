-- ===== src/Text/Search.antt =====
-- Prefixes, suffixes, substrings, positions and trimming.
use mathlib.Core.List.{reverse}
use aetheria.Prelude.{
  ℕ, suc, ◌+◌, ◌-◌, ◌≡◌, ◌≢◌, refl, Bool, true, false, ◌&&◌, ◌||◌, Option, none, some, [], ◌∷◌,
  ◌++◌, arith, leb, ◌==◌, if◌then◌else◌, length, take, drop, any, All, Bytes, same, drop-append,
}

-- strings.HasPrefix
unfoldable pub has_prefix : Bytes → Bytes → Bool
has_prefix s [] = true
has_prefix [] (p ∷ ps) = false
has_prefix (c ∷ s) (p ∷ ps) = c == p && has_prefix s ps

-- strings.TrimPrefix
unfoldable pub trim_prefix : Bytes → Bytes → Bytes
unfolding has_prefix
trim_prefix s p = if has_prefix s p then drop (length p) s else s

-- strings.HasSuffix
unfoldable pub has_suffix : Bytes → Bytes → Bool
has_suffix s p = leb (length p) (length s) && same (drop (length s - length p) s) p

-- strings.TrimSuffix
unfoldable pub trim_suffix : Bytes → Bytes → Bytes
unfolding has_suffix
trim_suffix s p = if has_suffix s p then take (length s - length p) s else s

-- strings.Contains
unfoldable pub contains : Bytes → Bytes → Bool
unfolding has_prefix
contains [] sub = has_prefix [] sub
contains (c ∷ s) sub = has_prefix (c ∷ s) sub || contains s sub

-- strings.Contains for a substring of one byte
unfoldable pub contains_byte : ℕ → Bytes → Bool
contains_byte b = any (λ c. c == b)

-- strings.ContainsAny
unfoldable pub contains_any : Bytes → Bytes → Bool
unfolding contains_byte
contains_any s chars = any (λ c. contains_byte c chars) s

-- strings.Index for a substring of one byte; `none` is -1
unfoldable pub index : Bytes → ℕ → Option ℕ
index [] b = none
index (c ∷ s) b =
    if c == b then some 0 else elim (index s b) [ none ↦ none | some i ↦ some (suc i) ]

-- strings.LastIndex for a substring of one byte
unfoldable pub last_index : Bytes → ℕ → Option ℕ
last_index [] b = none
last_index (c ∷ s) b = elim (last_index s b) [
  | some i ↦ some (suc i)
  | none ↦ if c == b then some 0 else none
]

unfoldable pub is_space : ℕ → Bool
is_space c = c == 32 || (leb 9 c && leb c 13)

unfoldable pub trim_left : (ℕ → Bool) → Bytes → Bytes
trim_left p [] = []
trim_left p (c ∷ s) = if p c then trim_left p s else c ∷ s

-- strings.TrimFunc
unfoldable pub trim_both : (ℕ → Bool) → Bytes → Bytes
unfolding trim_left
trim_both p s = reverse (trim_left p (reverse (trim_left p s)))

-- strings.TrimSpace
unfoldable pub trim_space : Bytes → Bytes
unfolding trim_both is_space
trim_space = trim_both is_space

-- strings.ToLower
unfoldable pub to_lower : Bytes → Bytes
to_lower [] = []
to_lower (c ∷ s) = (if leb b'A' c && leb c b'Z' then c + 32 else c) ∷ to_lower s

-- The text holds no byte `b`.
abbrev pub Lacks : ℕ → Bytes → Type 0
Lacks b = All (λ c. c ≢ b)

pub has_prefix-append : (p s : Bytes) → has_prefix (p ++ s) p ≡ true
unfolding has_prefix
has_prefix-append [] [] = refl
has_prefix-append [] (c ∷ s) = refl
has_prefix-append (c ∷ p) s = ground (arith, has_prefix-append p s)

pub trim_prefix-append : (p s : Bytes) → trim_prefix (p ++ s) p ≡ s
unfolding trim_prefix
trim_prefix-append p s =
    unfold trim_prefix in ground (arith, has_prefix-append p s, drop-append p s)

pub index-Lacks : (s : Bytes) (b : ℕ) → Lacks b s → index s b ≡ none
unfolding index
index-Lacks [] b h = refl
index-Lacks (c ∷ s) b (hc, hs) = ground (arith, index-Lacks s b hs)

pub index-append : (s t : Bytes) (b : ℕ) → Lacks b s → index (s ++ b ∷ t) b ≡ some (length s)
unfolding index
index-append [] t b h = ground arith
index-append (c ∷ s) t b (hc, hs) = ground (arith, index-append s t b hs)

pub last_index-Lacks : (s : Bytes) (b : ℕ) → Lacks b s → last_index s b ≡ none
unfolding last_index
last_index-Lacks [] b h = refl
last_index-Lacks (c ∷ s) b (hc, hs) = ground (arith, last_index-Lacks s b hs)

pub last_index-append :
    (s t : Bytes) (b : ℕ) → Lacks b t → last_index (s ++ b ∷ t) b ≡ some (length s)
unfolding last_index
last_index-append [] t b h = ground (arith, last_index-Lacks t b h)
last_index-append (c ∷ s) t b h = ground (arith, last_index-append s t b h)

pub contains_byte-Lacks : (s : Bytes) (b : ℕ) → Lacks b s → contains_byte b s ≡ false
unfolding contains_byte
contains_byte-Lacks [] b h = refl
contains_byte-Lacks (c ∷ s) b (hc, hs) = ground (arith, contains_byte-Lacks s b hs)

pub Lacks-contains_byte : (s : Bytes) (b : ℕ) → contains_byte b s ≡ false → Lacks b s
unfolding contains_byte
Lacks-contains_byte [] b h = tt
Lacks-contains_byte (c ∷ s) b h = (ground arith, Lacks-contains_byte s b (ground arith))

-- A text with none of some bytes lacks each of them.
pub contains_any-Lacks :
    (s chars : Bytes) (b : ℕ)
    → contains_byte b chars ≡ true
    → contains_any s chars ≡ false
    → Lacks b s
unfolding contains_any
contains_any-Lacks [] chars b hb h = tt
contains_any-Lacks (c ∷ s) chars b hb h =
    (λ e. ground (arith), contains_any-Lacks s chars b hb (ground arith))
