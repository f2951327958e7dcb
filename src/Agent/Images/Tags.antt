-- ===== src/Agent/Images/Tags.antt =====
-- Which files an image's name leads to.
use aetheria.Prelude.{
  ◌≡◌, ◌≢◌, refl, none, [], ◌∷◌, ◌++◌, Bytes, codes, ok, Exec, lookup, lookup-insert_self,
}
use aetheria.FilePath.{join_path}
use aetheria.Text.{Lacks}
use aetheria.Agent.Types.{Error}
use aetheria.Agent.Os.{Os, Guest, absent}
use aetheria.Agent.Oci.CacheNames.{short_name_ignores_tag}
use aetheria.Agent.Images.{
  Web, image_registry, image_extract_path, known_or_scanned, remember, pull, pull_known,
  builtin_path, ensure_image, prepare_container_rootfs, mount_rootfs, cache_key, on_disk,
}

module _ (os : Os) where
  open os use {World}

  extract_remembered :
      (name path : Bytes) (g : Guest World)
      → image_extract_path os name (remember os (cache_key name) path g)
        ≡ (path, remember os (cache_key name) path g)
  unfolding image_extract_path
  extract_remembered name path g =
      rw (lookup-insert_self (cache_key name) path g.oci_image_paths) refl

  not_cached :
      (name : Bytes) (g : Guest World)
      → lookup (cache_key name) g.oci_image_paths ≡ none
      → on_disk os name g ≡ none
      → image_extract_path os name g ≡ (builtin_path os name g, g)
  unfolding image_extract_path
  not_cached name g forgotten missing = rw (forgotten, known_or_scanned, missing) refl

  module _ (web : Web World) (pull_oci_image : Bytes → Exec (Guest World) Error Bytes) where
    -- After an image that is not built in was pulled from a registry under one tag, the same
    -- repository under every other tag leads to the files of the first, for tags without colon and
    -- slash.
    pub pull-other_tag :
        (repo t u path : Bytes) (g g₁ : Guest World)
        → repo ≢ []
        → Lacks b':' t × Lacks b'/' t
        → Lacks b':' u × Lacks b'/' u
        → lookup (repo ++ b':' ∷ t) image_registry ≡ none
        → pull_oci_image (repo ++ b':' ∷ t) g ≡ (ok path, g₁)
        → (image_extract_path os
            (repo ++ b':' ∷ u)
            (pull os web pull_oci_image (repo ++ b':' ∷ t) g).1).0
          ≡ path
    unfolding pull
    pull-other_tag repo t u path g g₁ filled ht hu unknown pulled =
        rw (unknown, pull_known, pulled, short_name_ignores_tag repo t u filled ht hu)
          (rw (extract_remembered (repo ++ b':' ∷ u) path g₁) refl)

    -- An image that is not built in, and neither known nor on disk, is pulled, but the container is
    -- mounted over the path that was read before, not over the one that the pull answered and that
    -- is read from then on.
    pub prepare_container_rootfs-stale :
        (container image path : Bytes) (g g₁ : Guest World)
        → lookup (cache_key image) g.oci_image_paths ≡ none
        → on_disk os image g ≡ none
        → lookup image image_registry ≡ none
        → os.stat (join_path (builtin_path os image g ∷ codes "bin" ∷ [])) g.world ≡ absent
        → pull_oci_image image g ≡ (ok path, g₁)
        → (prepare_container_rootfs os web pull_oci_image container image g
            ≡ mount_rootfs os container
                (builtin_path os image g)
                (remember os (cache_key image) path g₁))
          × ((image_extract_path os image (remember os (cache_key image) path g₁)).0 ≡ path)
    unfolding prepare_container_rootfs ensure_image pull
    prepare_container_rootfs-stale container image path g g₁ forgotten missing unknown empty
          pulled =
        (
          rw (not_cached image g forgotten missing, empty, unknown, pull_known, pulled) refl,
          rw (extract_remembered image path g₁) refl,
        )
