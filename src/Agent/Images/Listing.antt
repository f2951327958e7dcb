-- ===== src/Agent/Images/Listing.antt =====
-- ListImages.
use aetheria.Prelude.{
  Option, none, some, List, [], ◌∷◌, Bytes, codes, if◌then◌else◌, Result, ok, err, lookup, values,
}
use aetheria.Text.{trim_suffix}
use aetheria.FilePath.{join_path}
use aetheria.Agent.Types.{Error, nil_pointer}
use aetheria.Agent.Os.{Os, Guest, DirEntry, FileStat, present, absent, stat_failed}
use aetheria.Agent.Images.Cache.{ImageInfo, image_registry}

pub record ImageListResult : Type 0 where
  pub available : List ImageInfo
  pub cached : List ImageInfo

abbrev pub image_of_file : Bytes → Bytes
image_of_file file = trim_suffix (trim_suffix file (codes ".tar.gz")) (codes ".tar.xz")

-- The size is read from what DirEntry.Info returns, which is nil where it fails.
abbrev pub with_size : ImageInfo → FileStat → Result Error ImageInfo
with_size info (present n) = ok (record info { size = n })
with_size info absent = err nil_pointer
with_size info stat_failed = err nil_pointer

abbrev pub add_image :
    Option (Result Error ImageInfo) → Result Error (List ImageInfo) → Result Error (List ImageInfo)
add_image none rest = rest
add_image (some (err e)) rest = err e
add_image (some (ok info)) (ok infos) = ok (info ∷ infos)
add_image (some (ok info)) (err e) = err e

module _ (os : Os) where
  open os use {World}

  -- What one entry of the directory adds: an image of the registry, with the size of its file
  unfoldable pub listed : Bytes → DirEntry → World → Option (Result Error ImageInfo)
  listed images_dir e w =
      if e.is_dir then none else elim (lookup (image_of_file e.name) image_registry) [
        | none ↦ none
        | some info ↦ some (with_size info (os.stat (join_path (images_dir ∷ e.name ∷ [])) w))
      ]

  unfoldable pub list_cached : Bytes → List DirEntry → World → Result Error (List ImageInfo)
  list_cached images_dir [] w = ok []
  list_cached images_dir (e ∷ es) w =
      add_image (listed images_dir e w) (list_cached images_dir es w)

  abbrev pub entries_of : Option (List DirEntry) → List DirEntry
  entries_of none = []
  entries_of (some es) = es

  abbrev pub with_available : Result Error (List ImageInfo) → Result Error ImageListResult
  with_available (ok cached) = ok (record { available = values image_registry; cached = cached })
  with_available (err e) = err e

  -- ListImages; a map has no order, so that `available` has one of the possible ones.
  unfoldable pub list_images : Guest World → Result Error ImageListResult
  list_images g =
      with_available
        (list_cached g.images_dir (entries_of (os.read_dir g.images_dir g.world)) g.world)
