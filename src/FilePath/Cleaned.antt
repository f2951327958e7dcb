-- ===== src/FilePath/Cleaned.antt =====
-- The absolute paths that Clean, Join and Dir give.
use aetheria.Prelude.{
  ℕ, ◌+◌, ◌≡◌, sym, subst, true, some, List, [], ◌∷◌, ◌++◌, arith, Bytes, codes, take, Option-cases,
  inl, inr,
}
use aetheria.Text.{join, last_index}
use aetheria.FilePath.{
  is_abs, is_abs-append, is_abs-ne-nil, clean, join_path, join_path-filled, dir,
}

-- What Clean gives for an absolute path
abbrev pub IsCleaned : Bytes → Type 0
IsCleaned p = (s : Bytes) × (is_abs s ≡ true) × (clean s ≡ p)

is_abs-clean : (s : Bytes) → is_abs s ≡ true → is_abs (clean s) ≡ true
unfolding clean is_abs
is_abs-clean s h = ground arith

pub is_abs-IsCleaned : (p : Bytes) → IsCleaned p → is_abs p ≡ true
is_abs-IsCleaned p (s, h, e) = subst (λ (x : Bytes). is_abs x ≡ true) e (is_abs-clean s h)

is_abs-join :
    (e : Bytes) (es : List Bytes) → is_abs e ≡ true → is_abs (join (e ∷ es) (codes "/")) ≡ true
unfolding join
is_abs-join e [] h = h
is_abs-join e (f ∷ es) h = is_abs-append (e ++ codes "/") _ (is_abs-append e (codes "/") h)

pub join_path-IsCleaned :
    (e : Bytes) (es : List Bytes) → is_abs e ≡ true → IsCleaned (join_path (e ∷ es))
join_path-IsCleaned e es h =
    (join (e ∷ es) (codes "/"), is_abs-join e es h, sym (join_path-filled e es (is_abs-ne-nil e h)))

has_slash : (s : Bytes) → is_abs s ≡ true → (i : ℕ) × (last_index s b'/' ≡ some i)
unfolding is_abs last_index
has_slash [] h = cc h
has_slash (c ∷ s) h = elim (Option-cases (last_index s b'/')) [
  | inl absent ↦ (0, ground arith)
  | inr (i, at) ↦ (i + 1, ground arith)
]

is_abs-take : (i : ℕ) (s : Bytes) → is_abs s ≡ true → is_abs (take (i + 1) s) ≡ true
unfolding is_abs
is_abs-take i [] h = cc h
is_abs-take i (c ∷ s) h = ground arith

dir-at : (i : ℕ) (s : Bytes) → last_index s b'/' ≡ some i → dir s ≡ clean (take (i + 1) s)
unfolding dir
dir-at i s at = ground arith

pub dir-IsCleaned : (s : Bytes) → is_abs s ≡ true → IsCleaned (dir s)
dir-IsCleaned s h =
    let (i, at) = has_slash s h in (take (i + 1) s, is_abs-take i s h, sym (dir-at i s at))
