-- ===== src/Agent/Oci/Pull.antt =====
-- The pull of an image (oci.go): pullOCIImage, extractOCILayer and extractTar.
pub mod Layers
pub mod Requests
pub mod Markers
use aetheria.Prelude.{
  ℕ, ◌+◌, Bool, true, false, ◌||◌, ◌&&◌, Option, none, some, List, [], ◌∷◌, ◌++◌, Bytes, codes,
  if◌then◌else◌, ltb, ◌==◌, length, take, same, Result, ok, err, Exec, pure, raise, ◌>>=◌, ◌>>◌,
}
use aetheria.Prelude.Int.{pos, negsuc}
use aetheria.Text.{trim_prefix}
use aetheria.Text.Decimal.{decimal}
use aetheria.FilePath.{join_path, dir}
use aetheria.Agent.Types.{
  Error, open_layer, extract_layer_tar, authenticate, manifest_error, layer_failed,
  layer_extract_failed, wrap,
}
use aetheria.Agent.Os.{Os, Guest, FileStat, present, absent, stat_failed}
use aetheria.Agent.Oci.{OciRef, OciDescriptor, OciManifest, parse_oci_ref, short_name}
use aetheria.Agent.Oci.Layers.{Files, WalkEntry, merge_layer}
use aetheria.Agent.Oci.Registry.{
  Client, Decoder, first_16, lift_result, get_auth_token, fetch_manifest_of, fetch_blob_to,
}

-- A layer's file is opened and read by the tar program, through gzip if it is compressed: whether
-- os.Open succeeds, and the exit code of tar, `none` for another error. `walk` is what filepath.Walk
-- finds in a directory.
pub record Tar (W : Type 0) : Type 0 where
  pub open_layer_file : Bytes → W → Bool × W
  pub extract_to : Bytes → Bytes → W → Option ℕ × W
  pub walk : Bytes → W → List WalkEntry

unfoldable pub wrapped : {S A : Type 0} → (Error → Error) → Exec S Error A → Exec S Error A
wrapped f m s = let (r, s') = m s in (wrap f r, s')

abbrev pub is_there : FileStat → Bool
is_there (present _) = true
is_there absent = false
is_there stat_failed = false

abbrev pub not_there : FileStat → Bool
not_there (present _) = false
not_there absent = true
not_there stat_failed = false

abbrev pub accepts : Option ℕ → Bool
accepts none = false
accepts (some code) = code == 0 || code == 2

-- The directory of an image in the cache, named by the digest of its configuration
abbrev pub digest_short : Bytes → Bytes
digest_short digest = take 12 (trim_prefix digest (codes "sha256:"))

-- Where the parts of one image are
pub record Places : Type 0 where
  pub cache_dir : Bytes
  pub rootfs : Bytes
  pub complete_marker : Bytes

abbrev pub places_in : Bytes → Places
places_in cache_dir = record {
  cache_dir = cache_dir;
  rootfs = join_path (cache_dir ∷ codes "rootfs" ∷ []);
  complete_marker = join_path (cache_dir ∷ codes ".oci-complete" ∷ []);
}

abbrev pub places_of : Bytes → Bytes → OciManifest → Places
places_of containers_dir short manifest = places_in (
    join_path (
      dir containers_dir
      ∷ codes "images"
      ∷ codes "oci"
      ∷ short
      ∷ digest_short manifest.config.digest
      ∷ []))

abbrev pub layer_path : Bytes → ℕ → Bytes
layer_path cache_dir i =
    join_path (cache_dir ∷ (codes "layer-" ++ decimal i ++ codes ".tar.gz") ∷ [])

module _ (os : Os) (files : Files os.World) (tar : Tar os.World) where
  open os use {World}

  unfoldable pub extract_and_merge : Bytes → Bytes → Exec World Error Unit
  extract_and_merge path target w =
      let tmp = target ++ codes ".layer-tmp" in
      let w₁ = (os.mkdir_all tmp (os.remove_all tmp w).1).1 in
      let (code, w₂) = tar.extract_to path tmp w₁ in
      let (r, w₃) = merge_layer files tmp target (tar.walk tmp w₂) w₂ in
      if accepts code
      then (r, (os.remove_all tmp w₃).1)
      else (err extract_layer_tar, (os.remove_all tmp w₂).1)

  -- extractOCILayer and extractTar: the temporary directory is removed on every way out.
  unfoldable pub extract_layer : Bytes → Bytes → Exec World Error Unit
  extract_layer path target w =
      let (opened, w₁) = tar.open_layer_file path w in
      if opened then extract_and_merge path target w₁ else (err open_layer, w₁)

  module _ (client : Client World) (decoder : Decoder) (ref : OciRef) (token : Bytes)
      (at : Places) where
    -- A layer that is not cached yet is downloaded.
    unfoldable pub download_layer : ℕ → OciDescriptor → Exec (Guest World) Error Unit
    download_layer i layer g =
        let path = layer_path at.cache_dir i in
        if not_there (os.stat path g.world)
        then (lift_result os client decoder (first_16 layer.digest)
              >> fetch_blob_to os client decoder ref token layer.digest path)
            g
        else (ok tt, g)

    unfoldable pub unpack_layer : ℕ → Exec (Guest World) Error Unit
    unpack_layer i g =
        let (r, w) = extract_layer (layer_path at.cache_dir i) at.rootfs g.world in
        (wrap (layer_extract_failed i) r, record g { world = w })

    -- The layers in their order, each into the same root file system
    unfoldable pub add_layers : ℕ → List OciDescriptor → Exec (Guest World) Error Unit
    add_layers i [] = pure tt
    add_layers i (layer ∷ layers) =
        wrapped (layer_failed i) (download_layer i layer)
        >> unpack_layer i
        >> add_layers (i + 1) layers

    abbrev pub make_places : Exec (Guest World) Error Unit
    make_places g =
        let w₁ = os.remove_all at.rootfs g.world in
        let w₂ = os.mkdir_all at.cache_dir w₁.1 in
        (ok tt, record g { world = (os.mkdir_all at.rootfs w₂.1).1 })

    -- The configuration is kept for later use: a failure is logged.
    unfoldable pub keep_config : Bytes → Guest World → Guest World
    keep_config digest g =
        let path = join_path (at.cache_dir ∷ codes "config.json" ∷ []) in
        if not_there (os.stat path g.world)
        then (fetch_blob_to os client decoder ref token digest path g).1
        else g

    -- resolv.conf, and then the file that marks the image as complete
    unfoldable pub mark_complete : Bytes → World → World
    mark_complete text w =
        let w₁ = (os.mkdir_all (join_path (at.rootfs ∷ codes "etc" ∷ [])) w).1 in
        let resolv = join_path (at.rootfs ∷ codes "etc" ∷ codes "resolv.conf" ∷ []) in
        let w₂ = (os.write_file resolv (codes "nameserver 8.8.8.8\nnameserver 1.1.1.1\n") w₁).1 in
        (os.write_file at.complete_marker (text ++ codes "\n") w₂).1

    unfoldable pub finish : Bytes → Bytes → Guest World → Guest World
    finish text digest g =
        let g₁ = keep_config digest g in record g₁ { world = mark_complete text g₁.world }

    unfoldable pub add_all : List OciDescriptor → Exec (Guest World) Error Unit
    add_all layers = make_places >> add_layers 0 layers

    abbrev pub finished :
        Bytes → Bytes → Result Error (Unit {0}) × Guest World → Result Error Bytes × Guest World
    finished text digest (ok u, g) = (ok at.rootfs, finish text digest g)
    finished text digest (err e, g) = (err e, g)

    -- What follows once the manifest is known
    unfoldable pub pull_manifest : Bytes → OciManifest → Exec (Guest World) Error Bytes
    pull_manifest text manifest g =
        let pulled = finished text manifest.config.digest (add_all manifest.layers g) in
        if is_there (os.stat at.complete_marker g.world) then (ok at.rootfs, g) else pulled

  module _ (client : Client World) (decoder : Decoder) where
    abbrev pub at_places : OciRef → Bytes → Bytes → OciManifest → Exec (Guest World) Error Bytes
    at_places ref token text manifest g =
        pull_manifest client decoder ref token
          (places_of g.containers_dir (short_name ref) manifest) text manifest g

    -- pullOCIImage
    unfoldable pub pull_oci_image : Bytes → Exec (Guest World) Error Bytes
    pull_oci_image text =
        let ref = parse_oci_ref text in
        wrapped authenticate (get_auth_token os client decoder ref) >>= λ token.
        wrapped manifest_error (fetch_manifest_of os client decoder ref token) >>= λ manifest.
        lift_result os client decoder (first_16 manifest.config.digest)
        >> at_places ref token text manifest
