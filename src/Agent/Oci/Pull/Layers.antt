-- ===== src/Agent/Oci/Pull/Layers.antt =====
-- What the merge of a layer keeps of the world (oci.go): extractOCILayer and what it calls.
use aetheria.Prelude.{
  Bool, true, false, if◌then◌else◌, none, some, List, [], ◌∷◌, ◌++◌, Bytes, codes, Result, err,
  Exec, Preserves, Preserves-bind, preserves_rules,
}
use aetheria.Agent.Types.{Error, open_layer, extract_layer_tar}
use aetheria.Agent.Os.{Os}
use aetheria.Agent.Oci.Layers.{
  Files, Kind, directory, link, regular, WalkEntry, unreadable, found, merge_layer, merge_entry,
  merge_found, merge_kind, merge_link, copy_regular, copy_and_close, clear_dir, remove_each, call,
  quietly,
}
use aetheria.Agent.Oci.Registry.{Client, Decoder}
use aetheria.Agent.Oci.Pull.{Tar, accepts, extract_and_merge, extract_layer}

-- A property of the world that every call of the pull keeps, except os.WriteFile
pub record KeptByAll (os : Os) (files : Files os.World) (tar : Tar os.World)
    (client : Client os.World) (P : os.World → Type 0) : Type 0 where
  pub mkdir_all : (p : Bytes) (w : os.World) → P w → P (os.mkdir_all p w).1
  pub remove_all : (p : Bytes) (w : os.World) → P w → P (os.remove_all p w).1
  pub remove : (p : Bytes) (w : os.World) → P w → P (os.remove p w).1
  pub rename : (p q : Bytes) (w : os.World) → P w → P (os.rename p q w).1
  pub get : (u : Bytes) (h : List (Bytes × Bytes)) (w : os.World) → P w → P (client.get u h w).1
  pub create : (p : Bytes) (w : os.World) → P w → P (client.create p w).1
  pub copy_body : (p : Bytes) (w : os.World) → P w → P (client.copy_body p w).1
  pub open_layer_file : (p : Bytes) (w : os.World) → P w → P (tar.open_layer_file p w).1
  pub extract_to : (p q : Bytes) (w : os.World) → P w → P (tar.extract_to p q w).1
  pub merge_remove_all : (p : Bytes) (w : os.World) → P w → P (files.remove_all p w).1
  pub merge_remove : (p : Bytes) (w : os.World) → P w → P (files.remove p w)
  pub merge_mkdir_all : (p : Bytes) (w : os.World) → P w → P (files.mkdir_all p w).1
  pub merge_symlink : (p q : Bytes) (w : os.World) → P w → P (files.symlink p q w).1
  pub merge_open : (p : Bytes) (w : os.World) → P w → P (files.open_source p w).1
  pub merge_create : (p : Bytes) (w : os.World) → P w → P (files.create p w).1
  pub merge_copy : (p b : Bytes) (w : os.World) → P w → P (files.copy p b w).1
  pub merge_close : (p : Bytes) (w : os.World) → P w → P (files.close p w).1
  pub merge_chown : (p : Bytes) (w : os.World) → P w → P (files.chown p w)

module _ (os : Os) (files : Files os.World) (tar : Tar os.World) (client : Client os.World)
    (decoder : Decoder) (P : os.World → Type 0) (kept : KeptByAll os files tar client P) where
  open os use {World}

  abbrev pub KeepsW : {A : Type 0} → Exec World Error A → Type 0
  KeepsW m = Preserves P m

  pub call-KeepsW :
      (e : Error) (m : World → Bool × World)
      → ((w : World) → P w → P (m w).1)
      → KeepsW (call files e m)
  unfolding call
  call-KeepsW e m h = record { after = λ w p. h w p }

  pub quietly-KeepsW :
      (m : World → World) → ((w : World) → P w → P (m w)) → KeepsW (quietly files m)
  unfolding quietly
  quietly-KeepsW m h = record { after = λ w p. h w p }

  pub if-KeepsW :
      {A : Type 0} (b : Bool) (m n : Exec World Error A)
      → KeepsW m
      → KeepsW n
      → KeepsW (if b then m else n)
  if-KeepsW true m n hm hn = hm
  if-KeepsW false m n hm hn = hn

  pub remove_each-kept :
      (d : Bytes) (names : List Bytes) (w : World) → P w → P (remove_each files d names w)
  unfolding remove_each
  remove_each-kept d [] w p = p
  remove_each-kept d (name ∷ names) w p = remove_each-kept d names _ (kept.merge_remove_all _ w p)

  pub copy_and_close-KeepsW : (dst content : Bytes) → KeepsW (copy_and_close files dst content)
  unfolding copy_and_close
  copy_and_close-KeepsW dst content = record {
    after = λ w p. kept.merge_close dst _ (kept.merge_copy dst content w p);
  }

  pub copy_regular-KeepsW : (src dst content : Bytes) → KeepsW (copy_regular files src dst content)
  unfolding copy_regular
  copy_regular-KeepsW src dst content =
      search
        (
          preserves_rules, quietly-KeepsW, call-KeepsW, copy_and_close-KeepsW, kept.merge_mkdir_all,
          kept.merge_open, kept.merge_create, kept.merge_chown,
        )
        depth 16

  pub merge_kind-KeepsW : (src dst : Bytes) (kind : Kind) → KeepsW (merge_kind files src dst kind)
  unfolding merge_kind merge_link
  merge_kind-KeepsW src dst directory = search (call-KeepsW, kept.merge_mkdir_all)
  merge_kind-KeepsW src dst (link none) = search (preserves_rules)
  merge_kind-KeepsW src dst (link (some to)) =
      search (preserves_rules, quietly-KeepsW, call-KeepsW, kept.merge_remove, kept.merge_symlink)
  merge_kind-KeepsW src dst (regular content) = copy_regular-KeepsW src dst content

  pub merge_entry-KeepsW :
      (layer target : Bytes) (e : WalkEntry) → KeepsW (merge_entry files layer target e)
  unfolding merge_entry merge_found clear_dir
  merge_entry-KeepsW layer target unreadable = search (preserves_rules)
  merge_entry-KeepsW layer target (found rel kind) =
      search
        (
          preserves_rules, if-KeepsW, quietly-KeepsW, kept.merge_remove_all, remove_each-kept,
          merge_kind-KeepsW,
        )
        depth 12

  pub merge_layer-KeepsW :
      (layer target : Bytes) (es : List WalkEntry) → KeepsW (merge_layer files layer target es)
  unfolding merge_layer
  merge_layer-KeepsW layer target [] = search (preserves_rules)
  merge_layer-KeepsW layer target (e ∷ es) =
      Preserves-bind (merge_entry files layer target e) (λ _. merge_layer files layer target es)
        (merge_entry-KeepsW layer target e) (λ _. merge_layer-KeepsW layer target es)

  pub if-kept :
      {A : Type 0} (b : Bool) (x y : Result Error A × World)
      → P x.1
      → P y.1
      → P (if b then x else y).1
  if-kept true x y hx hy = hx
  if-kept false x y hx hy = hy

  pub extract_layer-kept :
      (path target : Bytes) (w : World) → P w → P (extract_layer os files tar path target w).1
  unfolding extract_layer extract_and_merge
  extract_layer-kept path target w p =
      let tmp = target ++ codes ".layer-tmp" in
      let w₀ = (tar.open_layer_file path w).1 in
      let w₁ = (os.mkdir_all tmp (os.remove_all tmp w₀).1).1 in
      let w₂ = (tar.extract_to path tmp w₁).1 in
      let p₀ = kept.open_layer_file path w p in
      let p₂ = kept.extract_to path tmp w₁ (kept.mkdir_all tmp _ (kept.remove_all tmp w₀ p₀)) in
      let merged = (merge_layer-KeepsW tmp target (tar.walk tmp w₂)).after w₂ p₂ in
      let (r, w₃) = merge_layer files tmp target (tar.walk tmp w₂) w₂ in
      if-kept (tar.open_layer_file path w).0 (extract_and_merge os files tar path target w₀)
        (err open_layer, w₀)
        (if-kept (accepts (tar.extract_to path tmp w₁).0) (r, (os.remove_all tmp w₃).1)
          (err extract_layer_tar, (os.remove_all tmp w₂).1) (kept.remove_all tmp w₃ merged)
          (kept.remove_all tmp w₂ p₂))
        p₀
