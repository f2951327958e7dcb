-- ===== src/Agent/Lifecycle/Restore.antt =====
-- What a restart of the agent brings back.
use aetheria.Prelude.{
  ℕ, ◌<◌, ◌≡◌, ◌≢◌, refl, true, false, Option, none, some, List, [], ◌∷◌, ◌++◌, arith, Bytes, Bool,
  All, lookup, lookup-insert, lookup-insert_self, sym, subst, ◌⊎◌, if◌then◌else◌, inl, inr, codes,
}
use aetheria.FilePath.{join_path}
use aetheria.Agent.Types.{Container, ContainerConfig, stopped}
use aetheria.Agent.Os.{
  Os, Guest, DirEntry, FileStat, FileRead, absent, present, stat_failed, contents, no_file,
  read_failed,
}
use aetheria.Agent.Container.{
  Manager, config_of, register, restored, restore, load_decoded, load_file, enter_unless,
  load_entry, load_entries,
}

-- The map has `name` for a stopped container with the settings `cfg`.
abbrev pub Restored : Bytes → ContainerConfig → Manager → Type 0
Restored name cfg m =
    (p : ℕ) × (lookup name m.containers ≡ some p)
    × (p < m.next)
    × (config_of (m.heap p) ≡ cfg)
    × ((m.heap p).status ≡ stopped)

register-Restored :
    (c : Container) (m : Manager)
    → c.status ≡ stopped
    → Restored c.name (config_of c) (register c m)
unfolding register
register-Restored c m h =
    (m.next, lookup-insert_self c.name m.next m.containers, omega arith, ground arith, ground arith)

register-keeps :
    (c : Container) (m : Manager) (name : Bytes) (cfg : ContainerConfig)
    → name ≢ c.name
    → Restored name cfg m
    → Restored name cfg (register c m)
unfolding register
register-keeps c m name cfg ne (p, found, below, same_cfg, idle) = (
  p,
  ground (arith, lookup-insert name c.name m.next m.containers),
  omega arith,
  ground arith,
  ground arith,
)

module _ (os : Os) (decode : Bytes → Option ContainerConfig) (g : Guest os.World) where
  -- A restored entry is a stopped container under the directory's name, and any other changes nothing.
  abbrev pub Outcome : DirEntry → Manager → Manager → Type 0
  Outcome e m m' =
      (m' ≡ m)
      ⊎ ((cfg : ContainerConfig) × (rootfs : Bytes) × (m'
            ≡ register (restored cfg e.name rootfs) m))

  enter-Outcome :
      (st : FileStat) (e : DirEntry) (cfg : ContainerConfig) (rootfs : Bytes) (m : Manager)
      → Outcome e m (enter_unless st (restored cfg e.name rootfs) m)
  enter-Outcome (present n) e cfg rootfs m = inr (cfg, rootfs, refl)
  enter-Outcome absent e cfg rootfs m = inl refl
  enter-Outcome stat_failed e cfg rootfs m = inr (cfg, rootfs, refl)

  decoded-Outcome :
      (o : Option ContainerConfig) (e : DirEntry) (m : Manager)
      → Outcome e m (load_decoded os decode g e.name o m)
  unfolding load_decoded restore
  decoded-Outcome none e m = inl refl
  decoded-Outcome (some cfg) e m =
      let rootfs = join_path (g.containers_dir ∷ e.name ∷ codes "rootfs" ∷ []) in
      enter-Outcome (os.stat rootfs g.world) e cfg rootfs m

  file-Outcome :
      (f : FileRead) (e : DirEntry) (m : Manager) → Outcome e m (load_file os decode g e.name f m)
  file-Outcome (contents text) e m = decoded-Outcome (decode text) e m
  file-Outcome no_file e m = inl refl
  file-Outcome read_failed e m = inl refl

  if-Outcome :
      (b : Bool) (e : DirEntry) (m m' : Manager)
      → Outcome e m m'
      → Outcome e m (if b then m' else m)
  if-Outcome true e m m' h = h
  if-Outcome false e m m' h = inl refl

  pub load_entry-Outcome : (e : DirEntry) (m : Manager) → Outcome e m (load_entry os decode g e m)
  unfolding load_entry
  load_entry-Outcome e m =
      let f =
        os.read_file (join_path (g.containers_dir ∷ e.name ∷ codes "config.json" ∷ [])) g.world in
      if-Outcome e.is_dir e m (load_file os decode g e.name f m) (file-Outcome f e m)

  Outcome-keeps :
      (e : DirEntry) (m m' : Manager) (name : Bytes) (cfg : ContainerConfig)
      → name ≢ e.name
      → Outcome e m m'
      → Restored name cfg m
      → Restored name cfg m'
  Outcome-keeps e m m' name cfg ne (inl same_m) h = subst (Restored name cfg) (sym same_m) h
  Outcome-keeps e m m' name cfg ne (inr (cfg', rootfs, grown)) h =
      subst (Restored name cfg) (sym grown)
        (register-keeps (restored cfg' e.name rootfs) m name cfg ne h)

  load_entries-keeps :
      (es : List DirEntry) (m : Manager) (name : Bytes) (cfg : ContainerConfig)
      → All (λ e. name ≢ e.name) es
      → Restored name cfg m
      → Restored name cfg (load_entries os decode g es m)
  unfolding load_entries
  load_entries-keeps [] m name cfg hs h = h
  load_entries-keeps (e ∷ es) m name cfg (ne, hs) h =
      load_entries-keeps es (load_entry os decode g e m) name cfg hs
        (Outcome-keeps e m (load_entry os decode g e m) name cfg ne (load_entry-Outcome e m) h)

  load_entries-append :
      (before after : List DirEntry) (m : Manager)
      → load_entries os decode g (before ++ after) m
        ≡ load_entries os decode g after (load_entries os decode g before m)
  unfolding load_entries
  load_entries-append [] after m = refl
  load_entries-append (e ∷ before) after m =
      load_entries-append before after (load_entry os decode g e m)

  entered :
      (st : FileStat) (c : Container) (m : Manager)
      → st ≢ absent
      → enter_unless st c m ≡ register c m
  entered (present n) c m h = refl
  entered absent c m h = absurd (h refl)
  entered stat_failed c m h = refl

  load_entry-restores :
      (e : DirEntry) (m : Manager) (text : Bytes) (cfg : ContainerConfig)
      → e.is_dir ≡ true
      → os.read_file (join_path (g.containers_dir ∷ e.name ∷ codes "config.json" ∷ [])) g.world
        ≡ contents text
      → decode text ≡ some cfg
      → os.stat (join_path (g.containers_dir ∷ e.name ∷ codes "rootfs" ∷ [])) g.world ≢ absent
      → Restored e.name (record cfg { name = e.name }) (load_entry os decode g e m)
  unfolding load_entry load_decoded restore
  load_entry-restores e m text cfg is_dir read decoded there =
      let rootfs = join_path (g.containers_dir ∷ e.name ∷ codes "rootfs" ∷ []) in
      rw
        (
          is_dir,
          read,
          decoded,
          entered (os.stat rootfs g.world) (restored cfg e.name rootfs) m there,
        )
        (register-Restored (restored cfg e.name rootfs) m refl)

  -- A container's directory with a readable configuration and a root file system comes back as a
  -- stopped container with those settings, under the directory's name, wherever the directory stands
  -- among the entries, if no later entry has its name.
  pub load_entries-restores :
      (before after : List DirEntry) (e : DirEntry) (m : Manager) (text : Bytes)
      (cfg : ContainerConfig)
      → e.is_dir ≡ true
      → os.read_file (join_path (g.containers_dir ∷ e.name ∷ codes "config.json" ∷ [])) g.world
        ≡ contents text
      → decode text ≡ some cfg
      → os.stat (join_path (g.containers_dir ∷ e.name ∷ codes "rootfs" ∷ [])) g.world ≢ absent
      → All (λ x. e.name ≢ x.name) after
      → Restored e.name
          (record cfg { name = e.name })
          (load_entries os decode g (before ++ e ∷ after) m)
  unfolding load_entries
  load_entries-restores before after e m text cfg is_dir read decoded there others =
      let m₁ = load_entries os decode g before m in
      rw (load_entries-append before (e ∷ after) m) (
        load_entries-keeps after (load_entry os decode g e m₁) e.name (record cfg { name = e.name })
          others (load_entry-restores e m₁ text cfg is_dir read decoded there))
