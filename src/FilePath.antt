-- ===== src/FilePath.antt =====
-- Go's `path/filepath` on Linux: Clean, Join, Dir, Base and IsAbs.
pub mod Cleaned
use mathlib.Core.List.{foldl, foldl-append, reverse, reverse-cons}
use mathlib.Core.Path.{ap₂}
use aetheria.Prelude.{
  ◌+◌, ◌≡◌, ◌≢◌, ap, ◌∙◌, Bool, true, false, ◌||◌, none, some, List, [], ◌∷◌, ◌++◌, arith, ◌==◌,
  if◌then◌else◌, Bytes, codes, same, take, drop, append_assoc,
}
use aetheria.Text.{split, join, last_index, Lacks, split-append, split-Lacks}

abbrev dot : Bytes
dot = codes "."

abbrev dot_dot : Bytes
dot_dot = codes ".."

unfoldable pub is_abs : Bytes → Bool
is_abs [] = false
is_abs (c ∷ s) = c == b'/'

-- `..` removes the last component, if there is one that is not itself `..`; at the root it is
-- dropped, in a relative path it is kept.
abbrev go_up : Bool → List Bytes → List Bytes
go_up rooted [] = if rooted then [] else dot_dot ∷ []
go_up rooted (p ∷ st) = if same p dot_dot then dot_dot ∷ p ∷ st else st

-- One component, over the components so far, the last one first.
step : Bool → List Bytes → Bytes → List Bytes
step rooted st p =
    if same p [] || same p dot then st else if same p dot_dot then go_up rooted st else p ∷ st

-- The components of a path, once `.` and `..` are resolved.
unfoldable pub components : Bytes → List Bytes
unfolding step is_abs
components s = reverse (foldl (step (is_abs s)) [] (split s b'/'))

abbrev pub show : Bool → List Bytes → Bytes
show true ps = b'/' ∷ join ps (codes "/")
show false [] = dot
show false (p ∷ ps) = join (p ∷ ps) (codes "/")

-- filepath.Clean
unfoldable pub clean : Bytes → Bytes
unfolding components
clean s = show (is_abs s) (components s)

-- filepath.Join: leading empty elements are skipped
unfoldable pub join_path : List Bytes → Bytes
unfolding clean
join_path [] = []
join_path (e ∷ es) = if same e [] then join_path es else clean (join (e ∷ es) (codes "/"))

-- filepath.Dir: the text up to and with the last slash, cleaned
unfoldable pub dir : Bytes → Bytes
unfolding clean
dir s = elim (last_index s b'/') [ none ↦ clean [] | some i ↦ clean (take (i + 1) s) ]

abbrev drop_slashes : Bytes → Bytes
drop_slashes [] = []
drop_slashes (c ∷ s) = if c == b'/' then drop_slashes s else c ∷ s

abbrev after_last : Bytes → Bytes
after_last s = elim (last_index s b'/') [ none ↦ s | some i ↦ drop (i + 1) s ]

abbrev or_slash : Bytes → Bytes
or_slash [] = codes "/"
or_slash (c ∷ s) = c ∷ s

-- filepath.Base: what follows the last slash, when those at the end are gone
unfoldable pub base : Bytes → Bytes
base [] = dot
base (c ∷ s) = or_slash (after_last (reverse (drop_slashes (reverse (c ∷ s)))))

-- A component that `clean` keeps as it is.
pub record IsPlain (p : Bytes) : Type 0 where
  pub filled : p ≢ []
  pub not_dot : p ≢ dot
  pub not_up : p ≢ dot_dot
  pub one : Lacks b'/' p

step-IsPlain : (rooted : Bool) (st : List Bytes) (p : Bytes) → IsPlain p → step rooted st p ≡ p ∷ st
unfolding step
step-IsPlain rooted st p h = ground arith

pub is_abs-append : (s t : Bytes) → is_abs s ≡ true → is_abs (s ++ t) ≡ true
unfolding is_abs
is_abs-append [] t h = cc
is_abs-append (c ∷ s) t h = h

-- Below an absolute path, a plain name is one more component, whatever the path.
pub components-plain :
    (base p : Bytes)
    → is_abs base ≡ true
    → IsPlain p
    → components (base ++ b'/' ∷ p) ≡ components base ++ p ∷ []
unfolding components
components-plain base p rooted h =
    rw
      (
        is_abs-append base (b'/' ∷ p) rooted,
        rooted,
        split-append,
        split-Lacks p b'/' h.one,
        foldl-append,
        step-IsPlain true (foldl (step true) [] (split base b'/')) p h,
      )
      (reverse-cons p (foldl (step true) [] (split base b'/')))

join_two : (a b : Bytes) → join (a ∷ b ∷ []) (codes "/") ≡ a ++ b'/' ∷ b
unfolding join
join_two a b = append_assoc a (codes "/") b

clean-plain :
    (base p : Bytes)
    → is_abs base ≡ true
    → IsPlain p
    → clean (base ++ b'/' ∷ p) ≡ b'/' ∷ join (components base ++ p ∷ []) (codes "/")
unfolding clean
clean-plain base p rooted h =
    ap₂ show (is_abs-append base (b'/' ∷ p) rooted) (components-plain base p rooted h)

pub join_path-filled :
    (e : Bytes) (es : List Bytes) → e ≢ [] → join_path (e ∷ es) ≡ clean (join (e ∷ es) (codes "/"))
unfolding join_path
join_path-filled e es h = ground arith

pub is_abs-ne-nil : (s : Bytes) → is_abs s ≡ true → s ≢ []
unfolding is_abs
is_abs-ne-nil [] h e = cc h
is_abs-ne-nil (c ∷ s) h e = cc e

-- Joined to an absolute path, a plain name is the last component.
pub join_path-plain :
    (base p : Bytes)
    → is_abs base ≡ true
    → IsPlain p
    → join_path (base ∷ p ∷ []) ≡ b'/' ∷ join (components base ++ p ∷ []) (codes "/")
join_path-plain base p rooted h =
    join_path-filled base (p ∷ []) (is_abs-ne-nil base rooted)
    ∙ ap clean (join_two base p)
    ∙ clean-plain base p rooted h
