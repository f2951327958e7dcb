-- ===== src/Examples/Layers.antt =====
-- A layer that holds /r/a and marks its directory as opaque.
use aetheria.Prelude.{
  ◌≡◌, ◌⊎◌, inl, inr, refl, Bool, true, false, Option, none, some, List, [], ◌∷◌, ◌++◌, any, All,
  arith, Bytes, codes, if◌then◌else◌, same, ok, bytes_dec, ℕ_discrete, subst, sym, ◌≢◌, Bool-cases,
}
use aetheria.Text.{has_prefix, split, join, last_index}
use aetheria.FilePath.{join_path, dir, base, clean, components, is_abs, is_abs-ne-nil}
use aetheria.FilePath.Cleaned.{IsCleaned, is_abs-IsCleaned}
use aetheria.Agent.Oci.Layers.{
  Files, WalkEntry, found, regular, directory, merge_layer, merge_entry, merge_found, merge_kind,
  copy_regular, copy_and_close, call, quietly,
}
use aetheria.Agent.Oci.Layers.Effects.{Keeps, Removes, below, under, NoLink}
use aetheria.Agent.Oci.Layers.Markers.{
  roles, role, hides, neither, holds, MarkersFirst, expected, merge_layer-expected,
  merge_layer-marker_late,
}

abbrev place : Bytes
place = codes "/r/a"

-- The root directory holds r, and that holds a.
abbrev names_in : Bytes → List Bytes
names_in d =
    if same d (codes "/")
    then codes "r" ∷ []
    else if same d (codes "/r")
    then codes "a" ∷ []
    else []

-- The state is the file at `place`; no other path can hold one.
abbrev one_file : Files (Option Bytes)
one_file = record {
  read_dir = λ d w. names_in d;
  remove_all = λ p w. (true, if under p place then none else w);
  remove = λ p w. if same p place then none else w;
  mkdir_all = λ p w. (true, w);
  symlink = λ to p w. (false, w);
  open_source = λ p w. (true, w);
  create = λ p w. (same p place, if same p place then some [] else w);
  copy = λ p content w. (same p place, if same p place then some content else w);
  close = λ p w. (true, w);
  chown = λ p w. w;
}

abbrev held : Bytes → Option Bytes → Option Bytes
held q w = if same place q then w else none

is_root : (d : Bytes) → below d place ≡ true → (d ≡ []) ⊎ (d ≡ codes "/") ⊎ (d ≡ codes "/r")
unfolding has_prefix
is_root [] h = inl refl
is_root (a ∷ []) h = ground arith
is_root (a ∷ b ∷ []) h = ground arith
is_root (a ∷ b ∷ c ∷ []) h = ground arith
is_root (a ∷ b ∷ c ∷ d ∷ []) h = ground arith
is_root (a ∷ b ∷ c ∷ d ∷ e ∷ s) h = ground arith

abbrev found_in : Bytes → Bool
found_in d = any (λ name. under (join_path (d ∷ name ∷ [])) place) (names_in d)

found_in-slash : found_in (codes "/") ≡ below (codes "/") place
unfolding join_path clean components is_abs has_prefix split join bytes_dec ℕ_discrete
found_in-slash = refl

found_in-r : found_in (codes "/r") ≡ below (codes "/r") place
unfolding join_path clean components is_abs has_prefix split join bytes_dec ℕ_discrete
found_in-r = refl

no_names : (d : Bytes) → d ≢ codes "/" → d ≢ codes "/r" → names_in d ≡ []
no_names d n m = ground arith

not_nil : (d : Bytes) → IsCleaned d → d ≢ []
not_nil d h e = is_abs-ne-nil d (is_abs-IsCleaned d h) e

-- What lies at other places is not above the file.
not_above : (d : Bytes) → IsCleaned d → d ≢ codes "/" → d ≢ codes "/r" → below d place ≡ false
not_above d h n m = elim (Bool-cases (below d place)) [
  | inr apart ↦ apart
  | inl above ↦ elim (is_root d above) [
    | inl e ↦ absurd (not_nil d h e)
    | inr (inl e) ↦ absurd (n e)
    | inr (inr e) ↦ absurd (m e)
  ]
]

found_in-below : (d : Bytes) → IsCleaned d → found_in d ≡ below d place
found_in-below d h = elim (bytes_dec d (codes "/")) [
  | yes e ↦ rw e found_in-slash
  | no n ↦ elim (bytes_dec d (codes "/r")) [
    | yes e ↦ rw e found_in-r
    | no m ↦ rw (no_names d n m) (sym (not_above d h n m))
  ]
]

listed_at :
    (d q : Bytes) (w : Option Bytes)
    → IsCleaned d
    → (any (λ name. under (join_path (d ∷ name ∷ [])) q) (one_file.read_dir d w) ≡ below d q)
      ⊎ (held q w ≡ none)
listed_at d q w h = elim (bytes_dec place q) [
  | no n ↦ inr (ground arith)
  | yes e ↦ inl (
      subst
        (λ x. any (λ name. under (join_path (d ∷ name ∷ [])) x) (one_file.read_dir d w) ≡ below d x)
        e (found_in-below d h))
]

if_twice :
    (b : Bool) (x w : Option Bytes)
    → (if b then x else none) ≡ (if b then x else (if b then w else none))
if_twice true x w = refl
if_twice false x w = refl

written_there :
    (x : Option Bytes) (q : Bytes) (w : Option Bytes)
    → held q (if same place place then x else w) ≡ (if same place q then x else held q w)
unfolding bytes_dec ℕ_discrete
written_there x q w = if_twice (same place q) x w

written_at :
    (p q : Bytes) (x w : Option Bytes)
    → same p place ≡ true
    → held q (if same p place then x else w) ≡ (if same p q then x else held q w)
written_at p q x w h = elim (bytes_dec p place) [
  | no n ↦ absurd (n (ground arith))
  | yes e ↦
      subst (λ y. held q (if same y place then x else w) ≡ (if same y q then x else held q w))
        (sym e) (written_there x q w)
]

removed_at :
    (p q : Bytes) (w : Option Bytes)
    → held q (if under p place then none else w) ≡ (if under p q then none else held q w)
removed_at p q w = elim (bytes_dec place q) [
  | no n ↦ away n (under p place) (under p q)
  | yes e ↦
      subst
        (λ y. held y (if under p place then none else w) ≡ (if under p y then none else held y w)) e
        (there (under p place))
]
  where
    away :
        place ≢ q → (b c : Bool) → held q (if b then none else w) ≡ (if c then none else held q w)
    away n b c = ground arith

    there : (b : Bool) → held place (if b then none else w) ≡ (if b then none else held place w)
    there true = ground arith
    there false = refl

one_file-Keeps : Keeps one_file held
one_file-Keeps = record {
  removed_all = λ p q w h r. removed_at p q w;
  listed = listed_at;
  made_dirs = λ p q w. refl;
  opened = λ p q w. refl;
  created = λ p q w c h. written_at p q (some []) w h;
  copied = λ p content q w c h. written_at p q (some content) w h;
  closed = λ p q w. refl;
  chowned = λ p q w. refl;
}

removing : Removes one_file
removing p w h = refl

abbrev layer : List WalkEntry
layer = found (codes ".") directory ∷ found (codes "a") (regular (codes "new")) ∷ []

abbrev marker : WalkEntry
marker = found (codes ".wh..wh..opq") (regular [])

abbrev root : Bytes
root = codes "/r"

root_abs : is_abs root ≡ true
unfolding is_abs
root_abs = refl

linkless : All NoLink (layer ++ marker ∷ [])
linkless = (tt, (tt, (tt, tt)))

done_late : (merge_layer one_file (codes "/l") root (layer ++ marker ∷ []) none).0 ≡ ok tt
unfolding merge_layer merge_entry merge_found merge_kind copy_regular copy_and_close call quietly
    join_path clean components is_abs has_prefix split join bytes_dec ℕ_discrete base last_index
done_late = refl

marked : role root place marker ≡ hides
unfolding role join_path clean components is_abs has_prefix split join bytes_dec ℕ_discrete base
    last_index dir
marked = refl

-- The file of the layer is gone behind the marker of the same layer.
merge_layer-marker_late_example :
    held place (merge_layer one_file (codes "/l") root (layer ++ marker ∷ []) none).1 ≡ none
merge_layer-marker_late_example =
    merge_layer-marker_late one_file held one_file-Keeps removing (codes "/l") root place root_abs
      layer [] marker none linkless marked refl done_late

done_first :
    (merge_layer one_file (codes "/l") root (marker ∷ layer) (some (codes "old"))).0 ≡ ok tt
unfolding merge_layer merge_entry merge_found merge_kind copy_regular copy_and_close call quietly
    join_path clean components is_abs has_prefix split join bytes_dec ℕ_discrete base last_index
done_first = refl

roles_first : roles root place (marker ∷ layer) ≡ hides ∷ neither ∷ holds (codes "new") ∷ []
unfolding role join_path clean components is_abs has_prefix split join bytes_dec ℕ_discrete base
    last_index dir
roles_first = refl

merge_layer-expected_example :
    held place (merge_layer one_file (codes "/l") root (marker ∷ layer) (some (codes "old"))).1
    ≡ expected (roles root place (marker ∷ layer)) (held place (some (codes "old")))
merge_layer-expected_example =
    merge_layer-expected one_file held one_file-Keeps removing (codes "/l") root place root_abs
      (marker ∷ layer) (some (codes "old")) (tt, (tt, (tt, tt)))
      (subst MarkersFirst (sym roles_first) (refl, tt)) done_first
