-- ===== src/Agent/Oci/Layers.antt =====
-- The merge of one layer into the root file system: mergeLayerWithWhiteouts and copyFile (oci.go).
pub mod Effects
pub mod Markers
use aetheria.Prelude.{
  ℕ, Bool, true, false, Option, none, some, List, [], ◌∷◌, ◌++◌, Bytes, codes, if◌then◌else◌, same,
  Result, ok, err, Exec, pure, raise, ◌>>=◌, ◌>>◌,
}
use aetheria.Text.{has_prefix, trim_prefix}
use aetheria.FilePath.{join_path, dir, base}
use aetheria.Agent.Types.{
  Error, walk_failed, make_dir, read_link, make_link, open_file, create_file, copy_file, close_file,
}

-- What the walk finds at a path: a link with what os.Readlink returns, a file with what reading it gives.
pub data Kind : Type 0 where
  directory : Kind
  link : Option Bytes → Kind
  regular : Bytes → Kind

-- filepath.Walk calls the function for each entry in the lexical order of the names, a directory before
-- what it holds; `unreadable` is a call with an error. `rel` is the path relative to the layer.
pub data WalkEntry : Type 0 where
  unreadable : WalkEntry
  found : Bytes → Kind → WalkEntry

-- The file system, as the merge calls it. `read_dir` gives the names in a directory, none on an error.
pub record Files (W : Type 0) : Type 0 where
  pub read_dir : Bytes → W → List Bytes
  pub remove_all : Bytes → W → Bool × W
  pub remove : Bytes → W → W
  pub mkdir_all : Bytes → W → Bool × W
  pub symlink : Bytes → Bytes → W → Bool × W
  pub open_source : Bytes → W → Bool × W
  pub create : Bytes → W → Bool × W
  pub copy : Bytes → Bytes → W → Bool × W
  pub close : Bytes → W → Bool × W
  pub chown : Bytes → W → W

abbrev pub opaque_name : Bytes
opaque_name = codes ".wh..wh..opq"

abbrev pub whiteout_prefix : Bytes
whiteout_prefix = codes ".wh."

module _ {W : Type 0} (files : Files W) where
  -- A call that returns its error
  unfoldable pub call : Error → (W → Bool × W) → Exec W Error Unit
  call e m w = let (done, w') = m w in (if done then ok tt else err e, w')

  -- A call whose error is not looked at
  unfoldable pub quietly : (W → W) → Exec W Error Unit
  quietly m w = (ok tt, m w)

  -- The contents of a directory, one after the other
  unfoldable pub remove_each : Bytes → List Bytes → W → W
  remove_each d [] w = w
  remove_each d (name ∷ names) w =
      remove_each d names (files.remove_all (join_path (d ∷ name ∷ [])) w).1

  unfoldable pub clear_dir : Bytes → W → W
  clear_dir d w = remove_each d (files.read_dir d w) w

  -- The file is closed whether the copy failed or not.
  unfoldable pub copy_and_close : Bytes → Bytes → Exec W Error Unit
  copy_and_close dst content w =
      let (copied, w₁) = files.copy dst content w in
      let (closed, w₂) = files.close dst w₁ in
      (if copied then (if closed then ok tt else err close_file) else err copy_file, w₂)

  -- copyFile
  unfoldable pub copy_regular : Bytes → Bytes → Bytes → Exec W Error Unit
  copy_regular src dst content = do
    quietly (λ w. (files.mkdir_all (dir dst) w).1)
    call open_file (files.open_source src)
    call create_file (files.create dst)
    copy_and_close dst content
    quietly (files.chown dst)

  unfoldable pub merge_link : Bytes → Option Bytes → Exec W Error Unit
  merge_link dst none = raise read_link
  merge_link dst (some to) = quietly (files.remove dst) >> call make_link (files.symlink to dst)

  unfoldable pub merge_kind : Bytes → Bytes → Kind → Exec W Error Unit
  merge_kind src dst directory = call make_dir (files.mkdir_all dst)
  merge_kind src dst (link to) = merge_link dst to
  merge_kind src dst (regular content) = copy_regular src dst content

  -- An entry that is not the layer's own directory
  unfoldable pub merge_found : Bytes → Bytes → Bytes → Kind → Exec W Error Unit
  merge_found layer target rel kind =
      let dst = join_path (target ∷ rel ∷ []) in
      let name = base rel in
      if same name opaque_name
      then quietly (clear_dir (dir dst))
      else if has_prefix name whiteout_prefix
      then quietly (λ w.
        (files.remove_all (join_path (dir dst ∷ trim_prefix name whiteout_prefix ∷ [])) w).1)
      else merge_kind (join_path (layer ∷ rel ∷ [])) dst kind

  unfoldable pub merge_entry : Bytes → Bytes → WalkEntry → Exec W Error Unit
  merge_entry layer target unreadable = raise walk_failed
  merge_entry layer target (found rel kind) =
      if same rel (codes ".") then pure tt else merge_found layer target rel kind

  -- mergeLayerWithWhiteouts: the walk ends at the first error.
  unfoldable pub merge_layer : Bytes → Bytes → List WalkEntry → Exec W Error Unit
  merge_layer layer target [] = pure tt
  merge_layer layer target (e ∷ es) = merge_entry layer target e >> merge_layer layer target es
