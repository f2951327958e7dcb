-- ===== src/Agent/Oci.antt =====
-- cmd/aetheria-agent/oci.go: image references, the registry's challenge, and the choice of a
-- platform in a manifest list.
pub mod RoundTrip
pub mod CacheNames
pub mod Selection
pub mod Layers
pub mod Registry
pub mod Redirects
pub mod Pull
use aetheria.Prelude.{
  ℕ, ◌+◌, Bool, true, false, not, ◌&&◌, ◌||◌, Option, none, some, List, [], ◌∷◌, ◌++◌, map, Bytes,
  codes, if◌then◌else◌, ltb, ◌==◌, length, take, drop, same, Result, ok, err,
}
use aetheria.Text.{
  last_index, contains_byte, contains, split, split_n, join, has_prefix, trim_prefix, trim_space,
  trim_both,
}

pub record OciRef : Type 0 where
  pub registry : Bytes
  pub repo : Bytes
  pub tag : Bytes

abbrev pub docker_hub : Bytes
docker_hub = codes "registry-1.docker.io"

abbrev pub latest : Bytes
latest = codes "latest"

abbrev slash : Bytes
slash = codes "/"

-- A registry contains a dot or a colon, or is "localhost".
unfoldable pub is_registry : Bytes → Bool
is_registry s = contains_byte b'.' s || contains_byte b':' s || same s (codes "localhost")

-- The reference without its tag, and the tag: what follows the last colon, if that is not the first
-- byte and no slash follows it.
unfoldable pub split_tag : Bytes → Bytes × Bytes
split_tag ref = elim (last_index ref b':') [
  | none ↦ (ref, latest)
  | some i ↦
      if ltb 0 i && not (contains_byte b'/' (drop i ref))
      then (take i ref, drop (i + 1) ref)
      else (ref, latest)
]

abbrev of_parts : Bytes → List Bytes → Bytes × Bytes
of_parts ref (a ∷ b ∷ []) = if is_registry a then (a, b) else (docker_hub, ref)
of_parts ref _ = (docker_hub, ref)

-- The registry and the repository.
unfoldable pub split_registry : Bytes → Bytes × Bytes
split_registry ref = of_parts ref (split_n ref b'/' 2)

-- Docker Hub's own images stand below `library`.
unfoldable pub with_library : Bytes → Bytes → Bytes
with_library registry repo =
    if same registry docker_hub && not (contains_byte b'/' repo)
    then codes "library/" ++ repo
    else repo

-- ParseOCIRef
unfoldable pub parse_oci_ref : Bytes → OciRef
parse_oci_ref ref =
    let (body, tag) = split_tag ref in
    let (registry, repo) = split_registry body in
    record { registry = registry; repo = with_library registry repo; tag = tag }

-- The registry, unless it is Docker Hub, and the repository.
unfoldable pub qualified : OciRef → Bytes
qualified r = if same r.registry docker_hub then r.repo else r.registry ++ b'/' ∷ r.repo

-- OCIRef.String
unfoldable pub show_oci_ref : OciRef → Bytes
show_oci_ref r = if same r.tag latest then qualified r else qualified r ++ b':' ∷ r.tag

abbrev pub to_dash : ℕ → ℕ
to_dash c = if c == b'/' || c == b':' then b'-' else c

-- OCIRef.ShortName: strings.NewReplacer on single bytes
unfoldable pub short_name : OciRef → Bytes
short_name r = map to_dash (qualified r)

abbrev quote : ℕ → Bool
quote c = c == b'"'

-- One part of the challenge, over the realm and the service so far.
unfoldable pub read_part : Bytes × Bytes → Bytes → Bytes × Bytes
read_part (realm, service) part =
    let p = trim_space part in
    if has_prefix p (codes "realm=")
    then (trim_both quote (trim_prefix p (codes "realm=")), service)
    else if has_prefix p (codes "service=")
    then (realm, trim_both quote (trim_prefix p (codes "service=")))
    else (realm, service)

unfoldable pub read_parts : Bytes × Bytes → List Bytes → Bytes × Bytes
read_parts found [] = found
read_parts found (p ∷ ps) = read_parts (read_part found p) ps

-- parseWWWAuthenticate
unfoldable pub parse_www_authenticate : Bytes → Bytes × Bytes
parse_www_authenticate header =
    read_parts ([], []) (split (trim_prefix header (codes "Bearer ")) b',')

pub record Platform : Type 0 where
  pub architecture : Bytes
  pub os : Bytes

pub record OciDescriptor : Type 0 where
  pub media_type : Bytes
  pub digest : Bytes
  pub size : ℕ
  pub platform : Option Platform

pub record OciManifest : Type 0 where
  pub media_type : Bytes
  pub config : OciDescriptor
  pub layers : List OciDescriptor

abbrev pub matches : Bytes → Bytes → OciDescriptor → Bool
matches os arch m = elim m.platform [
  | none ↦ false
  | some p ↦ same p.os os && same p.architecture arch
]

unfoldable pub available : List OciDescriptor → List Bytes
available [] = []
available (m ∷ ms) = elim m.platform [
  | none ↦ available ms
  | some p ↦ (p.os ++ b'/' ∷ p.architecture) ∷ available ms
]

-- The error of selectPlatform holds the platforms that there are.
unfoldable pub find_platform : List OciDescriptor → Bytes → Bytes → Option Bytes
find_platform [] os arch = none
find_platform (m ∷ ms) os arch =
    if matches os arch m then some m.digest else find_platform ms os arch

-- selectPlatform
unfoldable pub select_platform : List OciDescriptor → Bytes → Bytes → Result (List Bytes) Bytes
select_platform manifests os arch = elim (find_platform manifests os arch) [
  | none ↦ err (available manifests)
  | some digest ↦ ok digest
]

-- isManifestList
unfoldable pub is_manifest_list : Bytes → Bool
is_manifest_list content_type =
    contains content_type (codes "manifest.list") || contains content_type (codes "image.index")
