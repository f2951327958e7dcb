-- ===== src/Prelude/Strings.antt =====
-- Go's `string` and `[]byte` as lists of byte values, with a decided equality.
use Prim.Native.Nat.{ℕ}
use Prim.Native.Char.{code}
use Prim.Native.String.{String}
use mathlib.Core.Path.{refl, ap₂}
use mathlib.Core.Bool.{Bool, true, false}
use mathlib.Core.List.{List, [], ◌∷◌}
use mathlib.Core.Logic.{ite}
use native.Mathlib.Decide.{ℕ_discrete}

abbrev pub Bytes : Type 0
Bytes = List ℕ

-- The bytes of an ASCII literal.
abbrev pub codes : String → Bytes
codes String.[] = []
codes (String.◌∷◌ c s) = code c ∷ codes s

unfoldable pub bytes_dec : Discrete Bytes
unfolding ℕ_discrete
bytes_dec [] [] = yes refl
bytes_dec [] (y ∷ ys) = no (λ e. cc)
bytes_dec (x ∷ xs) [] = no (λ e. cc)
bytes_dec (x ∷ xs) (y ∷ ys) = elim (ℕ_discrete x y) [
  | yes p ↦ elim (bytes_dec xs ys) [ yes q ↦ yes (ap₂ ◌∷◌ p q) | no q ↦ no (λ e. q (cc e)) ]
  | no p ↦ no (λ e. p (cc e))
]

-- `a == b` on strings. Shut in proofs, where a split on it yields the equation or its negation.
abbrev pub same : Bytes → Bytes → Bool
same a b = ite (bytes_dec a b) true false
