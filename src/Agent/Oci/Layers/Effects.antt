-- ===== src/Agent/Oci/Layers/Effects.antt =====
-- What a layer makes of the file at one path (oci.go): mergeLayerWithWhiteouts.
use aetheria.Prelude.{
  ◌≡◌, ◌⊎◌, refl, Bool, true, ◌||◌, Option, none, some, List, [], ◌∷◌, ◌++◌, arith, Bytes, codes,
  if◌then◌else◌, same, any, Exec, pure, Takes, Takes-if, Takes-bind, Takes-pure, Takes-raise,
  Takes-ext, All, ◌>>◌,
}
use aetheria.Text.{has_prefix, trim_prefix}
use aetheria.FilePath.{join_path, dir, base, is_abs}
use aetheria.FilePath.Cleaned.{IsCleaned, is_abs-IsCleaned, join_path-IsCleaned, dir-IsCleaned}
use aetheria.Agent.Types.{Error, make_dir, open_file, create_file, walk_failed}
use aetheria.Agent.Oci.Layers.{
  Files, Kind, directory, link, regular, WalkEntry, unreadable, found, opaque_name, whiteout_prefix,
  merge_layer, merge_entry, merge_found, merge_kind, copy_regular, clear_dir, copy_and_close,
  remove_each, call, quietly,
}

-- `q` lies below the directory `d`.
abbrev pub below : Bytes → Bytes → Bool
below d q = has_prefix q (if same d (codes "/") then d else d ++ codes "/")

-- `q` is `p` or lies below it.
abbrev pub under : Bytes → Bytes → Bool
under p q = same p q || below p q

-- The documented behaviour of the calls on the regular file at each path, in a tree in which no path
-- goes through a link, for paths as Clean gives them; a directory can be read where it exists.
pub record Keeps {W : Type 0} (files : Files W) (file_at : Bytes → W → Option Bytes) : Type 0 where
  pub removed_all :
      (p q : Bytes) (w : W)
      → IsCleaned p
      → (files.remove_all p w).0 ≡ true
      → file_at q (files.remove_all p w).1 ≡ (if under p q then none else file_at q w)
  pub listed :
      (d q : Bytes) (w : W)
      → IsCleaned d
      → (any (λ name. under (join_path (d ∷ name ∷ [])) q) (files.read_dir d w) ≡ below d q)
        ⊎ (file_at q w ≡ none)
  pub made_dirs : (p q : Bytes) (w : W) → file_at q (files.mkdir_all p w).1 ≡ file_at q w
  pub opened : (p q : Bytes) (w : W) → file_at q (files.open_source p w).1 ≡ file_at q w
  pub created :
      (p q : Bytes) (w : W)
      → IsCleaned p
      → (files.create p w).0 ≡ true
      → file_at q (files.create p w).1 ≡ (if same p q then some [] else file_at q w)
  pub copied :
      (p content q : Bytes) (w : W)
      → IsCleaned p
      → (files.copy p content w).0 ≡ true
      → file_at q (files.copy p content w).1 ≡ (if same p q then some content else file_at q w)
  pub closed : (p q : Bytes) (w : W) → file_at q (files.close p w).1 ≡ file_at q w
  pub chowned : (p q : Bytes) (w : W) → file_at q (files.chown p w) ≡ file_at q w

-- No removal fails.
abbrev pub Removes : {W : Type 0} → Files W → Type 0
Removes {W} files = (p : Bytes) (w : W) → IsCleaned p → (files.remove_all p w).0 ≡ true

abbrev pub kind_effect : Bytes → Kind → Bytes → Option Bytes → Option Bytes
kind_effect dst directory q old = old
kind_effect dst (link to) q old = old
kind_effect dst (regular content) q old = if same dst q then some content else old

abbrev pub id {ℓ} : {A : Type ℓ} → A → A
id x = x

abbrev pub drop_if : Bool → Option Bytes → Option Bytes
drop_if b old = if b then none else old

abbrev pub found_effect : Bytes → Bytes → Kind → Bytes → Option Bytes → Option Bytes
found_effect target rel kind q =
    let dst = join_path (target ∷ rel ∷ []) in
    let name = base rel in
    if same name opaque_name
    then drop_if (below (dir dst) q)
    else if has_prefix name whiteout_prefix
    then drop_if (under (join_path (dir dst ∷ trim_prefix name whiteout_prefix ∷ [])) q)
    else kind_effect dst kind q

-- What one entry makes of the file at `q`
unfoldable pub effect : Bytes → WalkEntry → Bytes → Option Bytes → Option Bytes
effect target unreadable q = id
effect target (found rel kind) q =
    if same rel (codes ".") then id else found_effect target rel kind q

-- One entry after the other
unfoldable pub effects : Bytes → List WalkEntry → Bytes → Option Bytes → Option Bytes
effects target [] q old = old
effects target (e ∷ es) q old = effects target es q (effect target e q old)

abbrev pub NoLink : WalkEntry → Type 0
NoLink unreadable = Unit
NoLink (found rel directory) = Unit
NoLink (found rel (link to)) = ⊥
NoLink (found rel (regular content)) = Unit

module _ {W : Type 0} (files : Files W) (file_at : Bytes → W → Option Bytes)
    (laws : Keeps files file_at) (removes : Removes files) (q : Bytes) where
  abbrev At : {A : Type 0} → (Option Bytes → Option Bytes) → Exec W Error A → Type 0
  At f m = Takes (file_at q) f m

  quietly-At :
      (m : W → W) (f : Option Bytes → Option Bytes)
      → ((w : W) → file_at q (m w) ≡ f (file_at q w))
      → At f (quietly files m)
  unfolding quietly
  quietly-At m f h = record { through = λ w u e. h w }

  call-At :
      (x : Error) (m : W → Bool × W) (f : Option Bytes → Option Bytes)
      → ((w : W) → (m w).0 ≡ true → file_at q (m w).1 ≡ f (file_at q w))
      → At f (call files x m)
  unfolding call
  call-At x m f h = record { through = λ w u e. h w (ground arith) }

  remove_each-At :
      (d : Bytes) (names : List Bytes) (w : W)
      → IsCleaned d
      → file_at q (remove_each files d names w)
        ≡ drop_if (any (λ name. under (join_path (d ∷ name ∷ [])) q) names) (file_at q w)
  unfolding remove_each
  remove_each-At d [] w h = refl
  remove_each-At d (name ∷ names) w h =
      let p = join_path (d ∷ name ∷ []) in
      let w₁ = (files.remove_all p w).1 in
      let cleaned = join_path-IsCleaned d (name ∷ []) (is_abs-IsCleaned d h) in
      ground
        (arith, remove_each-At d names w₁ h, laws.removed_all p q w cleaned (removes p w cleaned))

  clear_dir-At :
      (d : Bytes) (w : W)
      → IsCleaned d
      → file_at q (clear_dir files d w) ≡ drop_if (below d q) (file_at q w)
  unfolding clear_dir
  clear_dir-At d w h =
      ground (arith, remove_each-At d (files.read_dir d w) w h, laws.listed d q w h)

  abbrev write_at : Bytes → Bytes → Option Bytes → Option Bytes
  write_at dst content old = if same dst q then some content else old

  copy_and_close-At :
      (dst content : Bytes)
      → IsCleaned dst
      → At (write_at dst content) (copy_and_close files dst content)
  unfolding copy_and_close
  copy_and_close-At dst content h = record {
    through = λ w u e.
        ground
          (arith, laws.copied dst content q w h, laws.closed dst q (files.copy dst content w).1);
  }

  copy_regular-At :
      (src dst content : Bytes)
      → IsCleaned dst
      → At (write_at dst content) (copy_regular files src dst content)
  unfolding copy_regular
  copy_regular-At src dst content h =
      let made : W → W = λ w. (files.mkdir_all (dir dst) w).1 in
      let chowned = quietly files (files.chown dst) in
      let copied = copy_and_close files dst content >> chowned in
      let created = call files create_file (files.create dst) >> copied in
      let opened = call files open_file (files.open_source src) >> created in
      Takes-ext (λ x. write_at dst content (write_at dst [] x)) (write_at dst content)
        (copy_regular files src dst content) (λ x. ground arith)
        (Takes-bind (quietly files made) (λ _. opened) id
          (λ x. write_at dst content (write_at dst [] x))
          (quietly-At made id (λ w. laws.made_dirs (dir dst) q w))
          λ _.
            Takes-bind (call files open_file (files.open_source src)) (λ _. created) id
              (λ x. write_at dst content (write_at dst [] x))
              (call-At open_file (files.open_source src) id (λ w e. laws.opened src q w))
              λ _.
                Takes-bind (call files create_file (files.create dst)) (λ _. copied)
                  (write_at dst []) (write_at dst content)
                  (call-At create_file (files.create dst) (write_at dst [])
                    (λ w e. laws.created dst q w h e))
                  λ _.
                    Takes-bind (copy_and_close files dst content) (λ _. chowned)
                      (write_at dst content) id (copy_and_close-At dst content h)
                      (λ _. quietly-At (files.chown dst) id (λ w. laws.chowned dst q w)))

  merge_kind-At :
      (src dst rel : Bytes) (kind : Kind)
      → NoLink (found rel kind)
      → IsCleaned dst
      → At (kind_effect dst kind q) (merge_kind files src dst kind)
  unfolding merge_kind
  merge_kind-At src dst rel directory h cleaned =
      call-At make_dir (files.mkdir_all dst) id (λ w e. laws.made_dirs dst q w)
  merge_kind-At src dst rel (link to) h cleaned = absurd h
  merge_kind-At src dst rel (regular content) h cleaned = copy_regular-At src dst content cleaned

  merge_found-At :
      (layer target rel : Bytes) (kind : Kind)
      → NoLink (found rel kind)
      → is_abs target ≡ true
      → At (found_effect target rel kind q) (merge_found files layer target rel kind)
  unfolding merge_found
  merge_found-At layer target rel kind h rooted =
      let dst = join_path (target ∷ rel ∷ []) in
      let src = join_path (layer ∷ rel ∷ []) in
      let hidden = join_path (dir dst ∷ trim_prefix (base rel) whiteout_prefix ∷ []) in
      let is_whiteout = has_prefix (base rel) whiteout_prefix in
      let cleaned = join_path-IsCleaned target (rel ∷ []) rooted in
      let parent = dir-IsCleaned dst (is_abs-IsCleaned dst cleaned) in
      let hidden_cleaned =
        join_path-IsCleaned (dir dst) (trim_prefix (base rel) whiteout_prefix ∷ [])
          (is_abs-IsCleaned (dir dst) parent) in
      let remove_hidden : W → W = λ w. (files.remove_all hidden w).1 in
      let removed = quietly files remove_hidden in
      Takes-if (same (base rel) opaque_name) (drop_if (below (dir dst) q))
        (if is_whiteout then drop_if (under hidden q) else kind_effect dst kind q)
        (quietly files (clear_dir files (dir dst)))
        (if is_whiteout then removed else merge_kind files src dst kind)
        (quietly-At (clear_dir files (dir dst)) (drop_if (below (dir dst) q))
          (λ w. clear_dir-At (dir dst) w parent))
        (Takes-if is_whiteout (drop_if (under hidden q)) (kind_effect dst kind q) removed
          (merge_kind files src dst kind)
          (quietly-At remove_hidden (drop_if (under hidden q))
            (λ w. laws.removed_all hidden q w hidden_cleaned (removes hidden w hidden_cleaned)))
          (merge_kind-At src dst rel kind h cleaned))

  merge_entry-At :
      (layer target : Bytes) (e : WalkEntry)
      → NoLink e
      → is_abs target ≡ true
      → At (effect target e q) (merge_entry files layer target e)
  unfolding merge_entry effect
  merge_entry-At layer target unreadable h rooted = Takes-raise walk_failed id
  merge_entry-At layer target (found rel kind) h rooted =
      Takes-if (same rel (codes ".")) id (found_effect target rel kind q) (pure tt)
        (merge_found files layer target rel kind) (Takes-pure tt)
        (merge_found-At layer target rel kind h rooted)

  pub merge_layer-At :
      (layer target : Bytes) (es : List WalkEntry)
      → All NoLink es
      → is_abs target ≡ true
      → At (effects target es q) (merge_layer files layer target es)
  unfolding merge_layer effects
  merge_layer-At layer target [] h rooted = Takes-pure tt
  merge_layer-At layer target (e ∷ es) (he, hs) rooted =
      Takes-bind (merge_entry files layer target e) (λ _. merge_layer files layer target es)
        (effect target e q) (effects target es q) (merge_entry-At layer target e he rooted)
        (λ _. merge_layer-At layer target es hs rooted)
