-- ===== src/Agent/Oci/Layers/Markers.antt =====
-- The merge of a layer beside the rule of the image format: a marker hides what the layers below have,
-- and never a file of its own layer.
use aetheria.Prelude.{
  ◌≡◌, refl, ap, ◌∙◌, Bool, true, false, Option, none, some, List, [], ◌∷◌, ◌++◌, map, arith, Bytes,
  codes, if◌then◌else◌, same, any, ok, All,
}
use aetheria.Text.{has_prefix, trim_prefix}
use aetheria.FilePath.{join_path, dir, base, is_abs}
use aetheria.Agent.Oci.Layers.{
  Files, Kind, directory, link, regular, WalkEntry, unreadable, found, opaque_name, whiteout_prefix,
  merge_layer,
}
use aetheria.Agent.Oci.Layers.Effects.{
  Keeps, Removes, below, under, effect, effects, kind_effect, NoLink, merge_layer-At,
}

-- What an entry of a layer is for the file at one path: the file, a marker that hides it, or neither.
pub data Role : Type 0 where
  neither hides : Role
  holds : Bytes → Role

abbrev hides_if : Bool → Role
hides_if b = if b then hides else neither

abbrev kind_role : Bytes → Kind → Bytes → Role
kind_role dst directory q = neither
kind_role dst (link to) q = neither
kind_role dst (regular content) q = if same dst q then holds content else neither

abbrev found_role : Bytes → Bytes → Kind → Bytes → Role
found_role target rel kind q =
    let dst = join_path (target ∷ rel ∷ []) in
    let name = base rel in
    if same name opaque_name
    then hides_if (below (dir dst) q)
    else if has_prefix name whiteout_prefix
    then hides_if (under (join_path (dir dst ∷ trim_prefix name whiteout_prefix ∷ [])) q)
    else kind_role dst kind q

unfoldable pub role : Bytes → Bytes → WalkEntry → Role
role target q unreadable = neither
role target q (found rel kind) =
    if same rel (codes ".") then neither else found_role target rel kind q

-- The file of the layer at the path, if it has one; the walk meets a path once.
abbrev pub own_file : List Role → Option Bytes
own_file [] = none
own_file (neither ∷ rs) = own_file rs
own_file (hides ∷ rs) = own_file rs
own_file (holds content ∷ rs) = elim (own_file rs) [ none ↦ some content | some c ↦ some c ]

abbrev is_hides : Role → Bool
is_hides neither = false
is_hides hides = true
is_hides (holds content) = false

-- What the format asks for: the layer's own file, or else the one below, unless a marker hides it.
unfoldable pub expected : List Role → Option Bytes → Option Bytes
expected rs below_it = elim (own_file rs) [
  | some content ↦ some content
  | none ↦ if any is_hides rs then none else below_it
]

-- No marker comes after the file that it covers.
abbrev pub MarkersFirst : List Role → Type 0
MarkersFirst [] = Unit
MarkersFirst (neither ∷ rs) = MarkersFirst rs
MarkersFirst (hides ∷ rs) = MarkersFirst rs
MarkersFirst (holds content ∷ rs) = (any is_hides rs ≡ false) × MarkersFirst rs

abbrev pub roles : Bytes → Bytes → List WalkEntry → List Role
roles target q = map (role target q)

abbrev pub play : Role → Option Bytes → Option Bytes
play neither old = old
play hides old = none
play (holds content) old = some content

kind-role :
    (dst q : Bytes) (kind : Kind) (old : Option Bytes)
    → kind_effect dst kind q old ≡ play (kind_role dst kind q) old
kind-role dst q directory old = refl
kind-role dst q (link to) old = refl
kind-role dst q (regular content) old = ground arith

effect-role :
    (target q : Bytes) (e : WalkEntry) (old : Option Bytes)
    → effect target e q old ≡ play (role target q e) old
unfolding effect role
effect-role target q unreadable old = refl
effect-role target q (found rel kind) old =
    ground (arith, kind-role (join_path (target ∷ rel ∷ [])) q kind old)

abbrev play_all : List Role → Option Bytes → Option Bytes
play_all [] old = old
play_all (r ∷ rs) old = play_all rs (play r old)

effects-roles :
    (target q : Bytes) (es : List WalkEntry) (old : Option Bytes)
    → effects target es q old ≡ play_all (roles target q es) old
unfolding effects
effects-roles target q [] old = refl
effects-roles target q (e ∷ es) old =
    effects-roles target q es (effect target e q old)
    ∙ ap (play_all (roles target q es)) (effect-role target q e old)

play_all-expected :
    (rs : List Role) (old : Option Bytes) → MarkersFirst rs → play_all rs old ≡ expected rs old
unfolding expected
play_all-expected [] old h = refl
play_all-expected (neither ∷ rs) old h = play_all-expected rs old h
play_all-expected (hides ∷ rs) old h = ground (arith, play_all-expected rs none h)
play_all-expected (holds content ∷ rs) old (free, h) =
    ground (arith, play_all-expected rs (some content) h)

-- Nothing in these entries is the file at the path.
abbrev pub Missing : List Role → Type 0
Missing rs = own_file rs ≡ none

play_all-none : (rs : List Role) → Missing rs → play_all rs none ≡ none
play_all-none [] h = refl
play_all-none (neither ∷ rs) h = play_all-none rs h
play_all-none (hides ∷ rs) h = play_all-none rs h
play_all-none (holds content ∷ rs) h = ground arith

effects-append :
    (target q : Bytes) (xs ys : List WalkEntry) (old : Option Bytes)
    → effects target (xs ++ ys) q old ≡ effects target ys q (effects target xs q old)
unfolding effects
effects-append target q [] ys old = refl
effects-append target q (x ∷ xs) ys old = effects-append target q xs ys (effect target x q old)

module _ {W : Type 0} (files : Files W) (file_at : Bytes → W → Option Bytes)
    (laws : Keeps files file_at) (removes : Removes files) (layer target q : Bytes)
    (rooted : is_abs target ≡ true) where
  -- In a tree below an absolute path, in which no removal fails, and without links in it or in the layer, a
  -- layer whose merge succeeds leaves at each path what the image format asks for, if no marker of the layer
  -- comes after the file that it covers.
  pub merge_layer-expected :
      (es : List WalkEntry) (w : W)
      → All NoLink es
      → MarkersFirst (roles target q es)
      → (merge_layer files layer target es w).0 ≡ ok tt
      → file_at q (merge_layer files layer target es w).1
        ≡ expected (roles target q es) (file_at q w)
  merge_layer-expected es w linkless first done =
      (merge_layer-At files file_at laws removes q layer target es linkless rooted).through w tt
        done
      ∙ effects-roles target q es (file_at q w)
      ∙ play_all-expected (roles target q es) (file_at q w) first

  -- In a tree below an absolute path, in which no removal fails, and without links in it or in the layer, a
  -- path that a marker covers holds no file after the merge if no entry behind the marker is that file: one
  -- that came before the marker, of the same layer, is gone.
  pub merge_layer-marker_late :
      (before after : List WalkEntry) (marker : WalkEntry) (w : W)
      → All NoLink (before ++ marker ∷ after)
      → role target q marker ≡ hides
      → Missing (roles target q after)
      → (merge_layer files layer target (before ++ marker ∷ after) w).0 ≡ ok tt
      → file_at q (merge_layer files layer target (before ++ marker ∷ after) w).1 ≡ none
  merge_layer-marker_late before after marker w linkless covers missing done =
      (merge_layer-At files file_at laws removes q layer target (before ++ marker ∷ after) linkless
          rooted).through
        w tt done
      ∙ effects-append target q before (marker ∷ after) (file_at q w)
      ∙ marker_effects (effects target before q (file_at q w))
    where
      marker_effects : (old : Option Bytes) → effects target (marker ∷ after) q old ≡ none
      marker_effects old =
          effects-roles target q (marker ∷ after) old
          ∙ ap (λ r. play_all (roles target q after) (play r old)) covers
          ∙ play_all-none (roles target q after) missing
