-- ===== src/Agent/Images/Pull.antt =====
-- PullImage and extractImage.
use aetheria.Prelude.{
  ℕ, Bool, false, ◌||◌, Option, none, some, [], ◌∷◌, ◌++◌, Bytes, codes, if◌then◌else◌, ◌==◌,
  Result, ok, err, Exec, ◌>>◌, lookup,
}
use aetheria.Prelude.Int.{pos, negsuc}
use aetheria.FilePath.{join_path}
use aetheria.Agent.Types.{
  Error, pull_image, pull_oci, download, create_temporary, write_body, rename_image, extract,
  http_status, wrap,
}
use aetheria.Agent.Os.{Os, Guest, RunResult, exited, not_run}
use aetheria.Agent.Images.Cache.{
  ImageInfo, cache_key, image_registry, image_cache_path, is_present, is_absent, is_filled,
  image_extract_path, remember,
}

-- The exit codes of tar that count as success
abbrev tar_done : RunResult → Bool
tar_done (exited (pos n) _ _) = n == 0 || n == 2
tar_done (exited (negsuc n) _ _) = false
tar_done not_run = false

-- An HTTP client with its response, and os.Create with io.Copy from the response's body; the first
-- `Bool` is `err == nil`.
pub record Web (W : Type 0) : Type 0 where
  pub get : Bytes → W → Option ℕ × W
  pub create : Bytes → W → Bool × W
  pub copy_body : Bytes → W → Bool × W

module _ (os : Os) where
  open os use {World}

  unfoldable pub unpack : Bytes → Bytes → Exec (Guest World) Error Unit
  unpack tarball dest g =
      let w₁ = (os.mkdir_all dest g.world).1 in
      let (r, w₂) = os.run (codes "tar" ∷ codes "xf" ∷ tarball ∷ codes "-C" ∷ dest ∷ []) w₁ in
      let g' : Guest World = record g { world = w₂ } in
      if tar_done r then (ok tt, g') else (err extract, g')

  unfoldable pub extract_image : Bytes → Bytes → Exec (Guest World) Error Unit
  extract_image name tarball g =
      let (dest, g') = image_extract_path os name g in
      if is_present (os.stat (join_path (dest ∷ codes "bin" ∷ [])) g'.world)
      then (ok tt, g')
      else unpack tarball dest g'

  abbrev in_world : {A : Type 0} → Exec World Error A → Exec (Guest World) Error A
  in_world m g = let (r, w) = m g.world in (r, record g { world = w })

  abbrev drop_on_failure : Error → Bytes → (World → Bool × World) → Exec World Error Unit
  drop_on_failure e tmp m w =
      let (done, w₁) = m w in if done then (ok tt, w₁) else (err e, (os.remove tmp w₁).1)

  module _ (web : Web World) where
    abbrev pub check_status : Option ℕ → Result Error (Unit {0})
    check_status none = err download
    check_status (some status) = if status == 200 then ok tt else err (http_status status)

    abbrev get_ok : Bytes → Exec World Error Unit
    get_ok url w = let (r, w₁) = web.get url w in (check_status r, w₁)

    abbrev create_file : Bytes → Exec World Error Unit
    create_file tmp w =
        let (done, w₁) = web.create tmp w in (if done then ok tt else err create_temporary, w₁)

    -- Into a temporary file that is renamed when it is complete
    unfoldable pub fetch : Bytes → Bytes → Exec World Error Unit
    fetch url path = do
      get_ok url
      create_file (path ++ codes ".tmp")
      drop_on_failure write_body (path ++ codes ".tmp") (web.copy_body (path ++ codes ".tmp"))
      drop_on_failure rename_image (path ++ codes ".tmp") (os.rename (path ++ codes ".tmp") path)

    -- `pull_oci_image` is pullOCIImage: the path of the root file system.
    module _ (pull_oci_image : Bytes → Exec (Guest World) Error Bytes) where
      abbrev pub oci_pulled :
          Bytes → Result Error Bytes × Guest World → Result Error (Unit {0}) × Guest World
      oci_pulled name (err e, g) = (wrap (pull_oci name) (err e), g)
      oci_pulled name (ok rootfs, g) = (ok tt, remember os (cache_key name) rootfs g)

      abbrev pub pull_known : Bytes → Option ImageInfo → Exec (Guest World) Error Unit
      pull_known name none g = oci_pulled name (pull_oci_image name g)
      pull_known name (some info) g =
          let path = image_cache_path g.images_dir name in
          if is_filled (os.stat path g.world)
          then extract_image name path g
          else (in_world (fetch info.url path) >> extract_image name path) g

      -- PullImage
      unfoldable pub pull : Bytes → Exec (Guest World) Error Unit
      pull name = pull_known name (lookup name image_registry)

      abbrev pub wrap_pull :
          Bytes → Result Error (Unit {0}) × Guest World → Result Error (Unit {0}) × Guest World
      wrap_pull image (r, g) = (wrap (pull_image image) r, g)

      unfoldable pub ensure_image : Bytes → Bytes → Exec (Guest World) Error Unit
      ensure_image image base g =
          if is_absent (os.stat (join_path (base ∷ codes "bin" ∷ [])) g.world)
          then wrap_pull image (pull image g)
          else (ok tt, g)
