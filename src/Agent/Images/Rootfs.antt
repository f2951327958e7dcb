-- ===== src/Agent/Images/Rootfs.antt =====
-- PrepareContainerRootfs.
use aetheria.Prelude.{
  Bool, true, false, [], ◌∷◌, ◌++◌, Bytes, codes, if◌then◌else◌, ◌==◌, ok, err, Exec, ◌>>◌,
}
use aetheria.Prelude.Int.{pos, negsuc}
use aetheria.FilePath.{join_path}
use aetheria.Agent.Types.{Error, copy_rootfs}
use aetheria.Agent.Os.{Os, Guest, RunResult, exited, not_run}
use aetheria.Agent.Images.Cache.{is_present, image_extract_path}
use aetheria.Agent.Images.Pull.{Web, ensure_image}

abbrev run_done : RunResult → Bool
run_done (exited (pos n) _ _) = n == 0
run_done (exited (negsuc n) _ _) = false
run_done not_run = false

module _ (os : Os) where
  open os use {World}

  -- resolv.conf
  unfoldable pub set_up_dns : Bytes → World → World
  set_up_dns merged w =
      let w₁ = (os.mkdir_all (join_path (merged ∷ codes "etc" ∷ [])) w).1 in
      (os.write_file (join_path (merged ∷ codes "etc" ∷ codes "resolv.conf" ∷ []))
        (codes "nameserver 8.8.8.8\nnameserver 1.1.1.1\n") w₁).1

  -- The overlay, or a copy where it cannot be mounted
  unfoldable pub overlay_or_copy : Bytes → Bytes → Bytes → Bytes → World → Bool × World
  overlay_or_copy base merged upper work w =
      let options =
        codes "lowerdir=" ++ base ++ codes ",upperdir=" ++ upper ++ codes ",workdir=" ++ work in
      let (mounted, w₁) =
        os.mount
          (record {
            source = codes "overlay";
            target = merged;
            fs_type = codes "overlay";
            options = options;
          })
          w in
      let (r, w₂) =
        os.run (codes "cp" ∷ codes "-a" ∷ (base ++ codes "/.") ∷ (merged ++ codes "/") ∷ []) w₁ in
      if mounted then (true, w₁) else (run_done r, w₂)

  unfoldable pub mount_rootfs : Bytes → Bytes → Exec (Guest World) Error Bytes
  mount_rootfs container base g =
      let container_dir = join_path (g.containers_dir ∷ container ∷ []) in
      let merged = join_path (container_dir ∷ codes "rootfs" ∷ []) in
      let upper = join_path (container_dir ∷ codes "upper" ∷ []) in
      let work = join_path (container_dir ∷ codes "work" ∷ []) in
      let w₁ = (os.mkdir_all upper (os.mkdir_all merged g.world).1).1 in
      let w₂ = (os.mkdir_all work (os.remove_all work w₁).1).1 in
      let (done, w₃) = overlay_or_copy base merged upper work w₂ in
      if is_present (os.stat (join_path (merged ∷ codes "bin" ∷ [])) g.world)
      then (ok merged, g)
      else if done
      then (ok merged, record g { world = set_up_dns merged w₃ })
      else (err copy_rootfs, record g { world = w₃ })

  module _ (web : Web World) (pull_oci_image : Bytes → Exec (Guest World) Error Bytes) where
    -- PrepareContainerRootfs: the path of the image is read before the image is pulled.
    unfoldable pub prepare_container_rootfs : Bytes → Bytes → Exec (Guest World) Error Bytes
    prepare_container_rootfs container image g =
        let (base, g') = image_extract_path os image g in
        (ensure_image os web pull_oci_image image base >> mount_rootfs container base) g'
