-- ===== src/Text/Split.antt =====
-- strings.Split, strings.SplitN and strings.Join, with a separator of one byte.
use aetheria.Prelude.{
  ℕ, zero, suc, ◌≡◌, ◌≢◌, refl, Option, none, some, List, [], ◌∷◌, ◌++◌, arith, ◌==◌, if◌then◌else◌,
  Bytes,
}
use aetheria.Text.Search.{Lacks}

-- The text before the first separator and the text behind it.
unfoldable pub cut : Bytes → ℕ → Option (Bytes × Bytes)
cut [] sep = none
cut (c ∷ s) sep =
    if c == sep
    then some ([], s)
    else elim (cut s sep) [ none ↦ none | some (a, b) ↦ some (c ∷ a, b) ]

-- strings.SplitN for a positive count
unfoldable pub split_n : Bytes → ℕ → ℕ → List Bytes
unfolding cut
split_n s sep zero = []
split_n s sep (suc zero) = s ∷ []
split_n s sep (suc (suc n)) = elim (cut s sep) [
  | none ↦ s ∷ []
  | some (a, b) ↦ a ∷ split_n b sep (suc n)
]

abbrev onto_first : ℕ → List Bytes → List Bytes
onto_first c [] = (c ∷ []) ∷ []
onto_first c (p ∷ ps) = (c ∷ p) ∷ ps

-- strings.Split
unfoldable pub split : Bytes → ℕ → List Bytes
split [] sep = [] ∷ []
split (c ∷ s) sep = let rest = split s sep in if c == sep then [] ∷ rest else onto_first c rest

-- strings.Join
unfoldable pub join : List Bytes → Bytes → Bytes
join [] sep = []
join (p ∷ []) sep = p
join (p ∷ q ∷ ps) sep = p ++ sep ++ join (q ∷ ps) sep

pub cut-Lacks : (s : Bytes) (sep : ℕ) → Lacks sep s → cut s sep ≡ none
unfolding cut
cut-Lacks [] sep h = refl
cut-Lacks (c ∷ s) sep (hc, hs) = ground (arith, cut-Lacks s sep hs)

pub cut-append : (a b : Bytes) (sep : ℕ) → Lacks sep a → cut (a ++ sep ∷ b) sep ≡ some (a, b)
unfolding cut
cut-append [] b sep h = ground arith
cut-append (c ∷ a) b sep (hc, ha) = ground (arith, cut-append a b sep ha)

pub split-ne-nil : (s : Bytes) (sep : ℕ) → split s sep ≢ []
unfolding split
split-ne-nil [] sep = cc
split-ne-nil (c ∷ s) sep = ground (arith, split-ne-nil s sep)

join-onto_first :
    (c : ℕ) (ps : List Bytes) (sep : Bytes) → ps ≢ [] → join (onto_first c ps) sep ≡ c ∷ join ps sep
unfolding join
join-onto_first c [] sep h = absurd (h refl)
join-onto_first c (p ∷ []) sep h = refl
join-onto_first c (p ∷ q ∷ ps) sep h = refl

join-nil_cons : (ps : List Bytes) (sep : Bytes) → ps ≢ [] → join ([] ∷ ps) sep ≡ sep ++ join ps sep
unfolding join
join-nil_cons [] sep h = absurd (h refl)
join-nil_cons (p ∷ ps) sep h = refl

-- Joining the parts gives the text back.
pub join-split : (s : Bytes) (sep : ℕ) → join (split s sep) (sep ∷ []) ≡ s
unfolding split
join-split [] sep = unfold join in refl
join-split (c ∷ s) sep = ground (
  arith,
  join-split s sep,
  split-ne-nil s sep,
  join-onto_first c (split s sep) (sep ∷ []),
  join-nil_cons (split s sep) (sep ∷ []),
)

append-onto_first :
    (c : ℕ) (ps qs : List Bytes) → ps ≢ [] → onto_first c (ps ++ qs) ≡ onto_first c ps ++ qs
append-onto_first c [] qs h = absurd (h refl)
append-onto_first c (p ∷ ps) qs h = refl

-- A separator cuts the split of a text in two.
pub split-append : (a b : Bytes) (sep : ℕ) → split (a ++ sep ∷ b) sep ≡ split a sep ++ split b sep
unfolding split
split-append [] b sep = ground arith
split-append (c ∷ a) b sep = ground (
  arith,
  split-append a b sep,
  split-ne-nil a sep,
  append-onto_first c (split a sep) (split b sep),
)

pub split-Lacks : (s : Bytes) (sep : ℕ) → Lacks sep s → split s sep ≡ s ∷ []
unfolding split
split-Lacks [] sep h = refl
split-Lacks (c ∷ s) sep (hc, hs) = ground (arith, split-Lacks s sep hs)
