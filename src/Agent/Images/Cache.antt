-- ===== src/Agent/Images/Cache.antt =====
-- Where an image's files are: the registry and imageExtractPath.
use aetheria.Prelude.{
  ℕ, Bool, true, false, ◌&&◌, Option, none, some, List, [], ◌∷◌, ◌++◌, Bytes, codes, if◌then◌else◌,
  ltb, Dict, lookup, insert,
}
use aetheria.Text.{has_suffix}
use aetheria.FilePath.{join_path, dir}
use aetheria.Agent.Os.{Os, Guest, DirEntry, FileStat, present, absent, stat_failed}
use aetheria.Agent.Oci.{parse_oci_ref, short_name}

pub record ImageInfo : Type 0 where
  pub name : Bytes
  pub version : Bytes
  pub arch : Bytes
  pub url : Bytes
  pub size : ℕ

abbrev pub image_registry : Dict ImageInfo
image_registry =
    (
      codes "alpine",
      record {
        name = codes "alpine";
        version = codes "3.21";
        arch = codes "aarch64";
        url =
            codes
              "https://dl-cdn.alpinelinux.org/alpine/v3.21/releases/aarch64/alpine-minirootfs-3.21.3-aarch64.tar.gz";
        size = 0;
      },
    )
    ∷ (
      codes "ubuntu",
      record {
        name = codes "ubuntu";
        version = codes "24.04";
        arch = codes "arm64";
        url =
            codes
              "https://cdimage.ubuntu.com/ubuntu-base/releases/24.04/release/ubuntu-base-24.04.4-base-arm64.tar.gz";
        size = 0;
      },
    )
    ∷ (
      codes "debian",
      record {
        name = codes "debian";
        version = codes "12";
        arch = codes "arm64";
        url =
            codes
              "https://cloud.debian.org/images/cloud/bookworm/latest/rootfs/debian-12-nocloud-arm64-rootfs.tar.xz";
        size = 0;
      },
    )
    ∷ []

abbrev extension : Option ImageInfo → Bytes
extension none = codes ".tar.gz"
extension (some info) =
    if has_suffix info.url (codes ".tar.xz") then codes ".tar.xz" else codes ".tar.gz"

-- imageCachePath
unfoldable pub image_cache_path : Bytes → Bytes → Bytes
image_cache_path images_dir name =
    join_path (images_dir ∷ (name ++ extension (lookup name image_registry)) ∷ [])

-- What the images' directories and the map of paths are named by
abbrev pub cache_key : Bytes → Bytes
cache_key name = short_name (parse_oci_ref name)

-- `err == nil`
abbrev pub is_present : FileStat → Bool
is_present (present _) = true
is_present absent = false
is_present stat_failed = false

abbrev pub is_absent : FileStat → Bool
is_absent (present _) = false
is_absent absent = true
is_absent stat_failed = false

abbrev pub is_filled : FileStat → Bool
is_filled (present size) = ltb 0 size
is_filled absent = false
is_filled stat_failed = false

module _ (os : Os) where
  open os use {World}

  -- The first directory that a finished pull has marked
  unfoldable pub find_complete : Bytes → List DirEntry → World → Option Bytes
  find_complete oci_dir [] w = none
  find_complete oci_dir (e ∷ es) w =
      let rest = find_complete oci_dir es w in
      let marker = join_path (oci_dir ∷ e.name ∷ codes ".oci-complete" ∷ []) in
      if e.is_dir && is_present (os.stat marker w)
      then some (join_path (oci_dir ∷ e.name ∷ codes "rootfs" ∷ []))
      else rest

  abbrev pub scan_found : Bytes → Option (List DirEntry) → World → Option Bytes
  scan_found oci_dir none w = none
  scan_found oci_dir (some es) w = find_complete oci_dir es w

  -- Where an image of the registry stands, cached or not
  abbrev pub builtin_path : Bytes → Guest World → Bytes
  builtin_path name g =
      join_path (dir g.containers_dir ∷ codes "images" ∷ name ∷ codes "rootfs" ∷ [])

  abbrev pub oci_dir_of : Bytes → Guest World → Bytes
  oci_dir_of short g = join_path (dir g.containers_dir ∷ codes "images" ∷ codes "oci" ∷ short ∷ [])

  abbrev pub on_disk : Bytes → Guest World → Option Bytes
  on_disk name g =
      let oci_dir = oci_dir_of (cache_key name) g in
      scan_found oci_dir (os.read_dir oci_dir g.world) g.world

  abbrev pub remember : Bytes → Bytes → Guest World → Guest World
  remember short path g = record g { oci_image_paths = insert short path g.oci_image_paths }

  abbrev pub scanned : Bytes → Option Bytes → Guest World → Bytes × Guest World
  scanned name none g = (builtin_path name g, g)
  scanned name (some path) g = (path, remember (cache_key name) path g)

  abbrev pub known_or_scanned : Bytes → Option Bytes → Guest World → Bytes × Guest World
  known_or_scanned name (some path) g = (path, g)
  known_or_scanned name none g = scanned name (on_disk name g) g

  -- imageExtractPath
  unfoldable pub image_extract_path : Bytes → Guest World → Bytes × Guest World
  image_extract_path name g = known_or_scanned name (lookup (cache_key name) g.oci_image_paths) g
