-- ===== src/Agent/Oci/Pull/Markers.antt =====
-- What a pull that fails leaves (oci.go).
use aetheria.Prelude.{
  ℕ, ◌+◌, ◌≡◌, Bool, true, false, if◌then◌else◌, List, [], ◌∷◌, Bytes, Result, ok, err, Exec,
  Preserves, Preserves-bind, preserves_rules, PreservesFailed, PreservesFailed-bind, ◌>>◌,
}
use aetheria.Agent.Types.{Error, layer_failed}
use aetheria.Agent.Os.{Os, Guest}
use aetheria.Agent.Oci.{OciRef, OciDescriptor, OciManifest, short_name}
use aetheria.Agent.Oci.Layers.{Files}
use aetheria.Agent.Oci.Registry.{Client, Decoder, first_16, fetch_blob_to, lift_result}
use aetheria.Agent.Oci.Pull.{
  Tar, wrapped, Places, layer_path, not_there, make_places, finished, at_places, places_of,
  is_there, download_layer, unpack_layer, add_layers, add_all, pull_manifest, pull_oci_image,
}
use aetheria.Agent.Oci.Pull.Layers.{KeptByAll, extract_layer-kept}
use aetheria.Agent.Oci.Pull.Requests.{
  if-kept_guest, lift_result-KeepsG, fetch_blob_to-KeepsG, wrapped-KeepsG, get_auth_token-KeepsG,
  fetch_manifest_of-KeepsG,
}

module _ (os : Os) (files : Files os.World) (tar : Tar os.World) (client : Client os.World)
    (decoder : Decoder) (P : os.World → Type 0) (kept : KeptByAll os files tar client P) where
  open os use {World}

  abbrev KeepsG : {A : Type 0} → Exec (Guest World) Error A → Type 0
  KeepsG m = Preserves (λ (g : Guest World). P g.world) m

  module _ (ref : OciRef) (token : Bytes) (at : Places) where
    fetch-KeepsG :
        (digest path : Bytes)
        → KeepsG (
            lift_result os client decoder (first_16 digest)
            >> fetch_blob_to os client decoder ref token digest path)
    fetch-KeepsG digest path =
        search
          (
            preserves_rules,
            lift_result-KeepsG os files tar client decoder P kept,
            fetch_blob_to-KeepsG os files tar client decoder P kept,
          )
          depth 8

    download_layer-KeepsG :
        (i : ℕ) (layer : OciDescriptor)
        → KeepsG (download_layer os files tar client decoder ref token at i layer)
    unfolding download_layer
    download_layer-KeepsG i layer = record {
      after = λ g p.
          let path = layer_path at.cache_dir i in
          let fetch =
            lift_result os client decoder (first_16 layer.digest)
            >> fetch_blob_to os client decoder ref token layer.digest path in
          if-kept_guest os files tar client decoder P kept (not_there (os.stat path g.world))
            (fetch g) (ok tt, g) ((fetch-KeepsG layer.digest path).after g p) p;
    }

    unpack_layer-KeepsG : (i : ℕ) → KeepsG (unpack_layer os files tar client decoder ref token at i)
    unfolding unpack_layer
    unpack_layer-KeepsG i = record {
      after = λ g p. extract_layer-kept os files tar client decoder P kept _ at.rootfs g.world p;
    }

    make_places-KeepsG : KeepsG (make_places os files tar client decoder ref token at)
    make_places-KeepsG = record {
      after = λ g p. kept.mkdir_all _ _ (kept.mkdir_all _ _ (kept.remove_all _ g.world p));
    }

    add_layers-KeepsG :
        (i : ℕ) (layers : List OciDescriptor)
        → KeepsG (add_layers os files tar client decoder ref token at i layers)
    unfolding add_layers
    add_layers-KeepsG i [] = search (preserves_rules)
    add_layers-KeepsG i (layer ∷ layers) =
        let one =
          wrapped (layer_failed i) (download_layer os files tar client decoder ref token at i layer)
          >> unpack_layer os files tar client decoder ref token at i in
        Preserves-bind one (λ _. add_layers os files tar client decoder ref token at (i + 1) layers)
          (search
            (
              preserves_rules,
              wrapped-KeepsG os files tar client decoder P kept,
              download_layer-KeepsG,
              unpack_layer-KeepsG,
            )
            depth 8)
          (λ _. add_layers-KeepsG (i + 1) layers)

    add_all-KeepsG :
        (layers : List OciDescriptor)
        → KeepsG (add_all os files tar client decoder ref token at layers)
    unfolding add_all
    add_all-KeepsG layers = search (preserves_rules, make_places-KeepsG, add_layers-KeepsG) depth 8

    -- Only what fails is spoken of: what succeeds ends with the files that are written.
    finished-failed :
        (text digest : Bytes) (x : Result Error (Unit {0}) × Guest World) (e : Error)
        → P x.1.world
        → (finished os files tar client decoder ref token at text digest x).0 ≡ err e
        → P (finished os files tar client decoder ref token at text digest x).1.world
    finished-failed text digest (ok u, g) e p h = cc h
    finished-failed text digest (err y, g) e p h = p

    if-failed :
        (b : Bool) (x y : Result Error Bytes × Guest World) (e : Error)
        → (x.0 ≡ err e → P x.1.world)
        → (y.0 ≡ err e → P y.1.world)
        → (if b then x else y).0 ≡ err e
        → P (if b then x else y).1.world
    if-failed true x y e hx hy h = hx h
    if-failed false x y e hx hy h = hy h

    pull_manifest-failed :
        (text : Bytes) (manifest : OciManifest)
        → PreservesFailed
            (λ (g : Guest World). P g.world)
            (pull_manifest os files tar client decoder ref token at text manifest)
    unfolding pull_manifest
    pull_manifest-failed text manifest = record {
      failed = λ g e p h.
          let added = add_all os files tar client decoder ref token at manifest.layers g in
          if-failed (is_there (os.stat at.complete_marker g.world)) (ok at.rootfs, g)
            (finished os files tar client decoder ref token at text manifest.config.digest added) e
            (λ x. cc x)
            (finished-failed text manifest.config.digest added e
              ((add_all-KeepsG manifest.layers).after g p))
            h;
    }

  at_places-failed :
      (ref : OciRef) (token text : Bytes) (manifest : OciManifest)
      → PreservesFailed
          (λ (g : Guest World). P g.world)
          (at_places os files tar client decoder ref token text manifest)
  at_places-failed ref token text manifest = record {
    failed = λ g e p h.
        (pull_manifest-failed ref token (places_of g.containers_dir (short_name ref) manifest) text
            manifest).failed
          g e p h;
  }

  pull_oci_image-failed :
      (text : Bytes)
      → PreservesFailed
          (λ (g : Guest World). P g.world)
          (pull_oci_image os files tar client decoder text)
  unfolding pull_oci_image
  pull_oci_image-failed text =
      search
        (
          PreservesFailed-bind,
          wrapped-KeepsG os files tar client decoder P kept,
          get_auth_token-KeepsG os files tar client decoder P kept,
          fetch_manifest_of-KeepsG os files tar client decoder P kept,
          lift_result-KeepsG os files tar client decoder P kept,
          at_places-failed,
        )
        depth 12

-- After a pull that fails, wherever it does, all that is true of the world is still true that every call of
-- a pull keeps except os.WriteFile, with which a pull writes the file that marks an image as complete.
pub pull_oci_image-unmarked :
    (os : Os) (files : Files os.World) (tar : Tar os.World) (client : Client os.World)
    (decoder : Decoder) (P : os.World → Type 0)
    → KeptByAll os files tar client P
    → (text : Bytes) (g : Guest os.World) (e : Error) → P g.world
    → (pull_oci_image os files tar client decoder text g).0 ≡ err e
    → P (pull_oci_image os files tar client decoder text g).1.world
pull_oci_image-unmarked os files tar client decoder P kept text g e p h =
    (pull_oci_image-failed os files tar client decoder P kept text).failed g e p h
