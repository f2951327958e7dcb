-- ===== src/Agent/Oci/Registry.antt =====
-- The registry's client (oci.go): tokens, manifests and blobs.
pub mod Tokens
use aetheria.Prelude.{
  ℕ, Bool, true, false, Option, none, some, List, [], ◌∷◌, ◌++◌, Bytes, codes, if◌then◌else◌, ltb,
  ◌==◌, length, take, same, Result, ok, err, Exec, pure, raise, ◌>>=◌, ◌>>◌, Dict, lookup, insert,
}
use aetheria.Text.{join}
use aetheria.Agent.Types.{
  Error, probe_registry, no_realm, auth_request, parse_token, fetch_manifest, read_manifest,
  parse_manifest, parse_manifest_list, fetch_by_digest, fetch_blob, create_temporary, download_blob,
  rename_blob, registry_status, auth_status, manifest_status, digest_status, blob_status,
  no_platform, slice_out_of_range,
}
use aetheria.Agent.Os.{Os, Guest}
use aetheria.Agent.Oci.{
  OciRef, OciDescriptor, OciManifest, parse_www_authenticate, is_manifest_list, select_platform,
}

-- A response: `body` is what reading all of it gives, `none` for an error.
pub record Answer : Type 0 where
  pub status : ℕ
  pub content_type : Bytes
  pub www_authenticate : Bytes
  pub body : Option Bytes

-- ociHTTPClient, which follows redirects, with os.Create and io.Copy from the last response's body.
pub record Client (W : Type 0) : Type 0 where
  pub get : Bytes → List (Bytes × Bytes) → W → Option Answer × W
  pub create : Bytes → W → Bool × W
  pub copy_body : Bytes → W → Bool × W

-- The JSON values that are decoded; `none` is an error, and a missing field is empty.
pub record Decoder : Type 0 where
  pub token : Bytes → Option (Bytes × Bytes)
  pub manifest : Bytes → Option OciManifest
  pub manifest_list : Bytes → Option (List OciDescriptor)

abbrev pub bearer : Bytes → List (Bytes × Bytes)
bearer token = if same token [] then [] else (codes "Authorization", codes "Bearer " ++ token) ∷ []

abbrev pub base_url : OciRef → Bytes
base_url ref = codes "https://" ++ ref.registry

abbrev pub manifest_url : OciRef → Bytes → Bytes
manifest_url ref name = base_url ref ++ codes "/v2/" ++ ref.repo ++ codes "/manifests/" ++ name

abbrev pub blob_url : OciRef → Bytes → Bytes
blob_url ref digest = base_url ref ++ codes "/v2/" ++ ref.repo ++ codes "/blobs/" ++ digest

-- `digest[:16]`, which is only printed: a digest of fewer bytes ends the program.
unfoldable pub first_16 : Bytes → Result Error (Unit {0})
first_16 digest = if ltb (length digest) 16 then err slice_out_of_range else ok tt

-- An error whose text holds these bytes
abbrev digest_error : Bytes → Error → Error
digest_error digest e = if ltb (length digest) 16 then slice_out_of_range else e

abbrev or_raise : {A : Type 0} → Error → Option A → Result Error A
or_raise e none = err e
or_raise e (some a) = ok a

abbrev of_status : (ℕ → Error) → Answer → Result Error (Unit {0})
of_status e a = if a.status == 200 then ok tt else err (e a.status)

abbrev read_body : Error → Answer → Result Error Bytes
read_body e a = or_raise e a.body

abbrev pub cache_key_of : OciRef → Bytes
cache_key_of ref = ref.registry ++ codes "/" ++ ref.repo

module _ (os : Os) (client : Client os.World) (decoder : Decoder) where
  open os use {World}

  abbrev pub lift_result : {A : Type 0} → Result Error A → Exec (Guest World) Error A
  lift_result r g = (r, g)

  unfoldable pub request : Error → Bytes → List (Bytes × Bytes) → Exec (Guest World) Error Answer
  request e url headers g =
      let (r, w) = client.get url headers g.world in (or_raise e r, record g { world = w })

  abbrev chosen_token : Bytes × Bytes → Bytes
  chosen_token (token, access) = if same token [] then access else token

  abbrev pub keep_token : OciRef → Bytes → Exec (Guest World) Error Bytes
  keep_token ref token g =
      (ok token, record g { auth_tokens = insert (cache_key_of ref) token g.auth_tokens })

  unfoldable pub fetch_token : OciRef → Bytes → Bytes → Exec (Guest World) Error Bytes
  fetch_token ref realm service = do
    a ←
        request auth_request
          (realm
            ++ codes "?service="
            ++ service
            ++ codes "&scope=repository:"
            ++ ref.repo
            ++ codes ":pull")
          []
    lift_result (of_status auth_status a)
    body ← lift_result (read_body parse_token a)
    t ← lift_result (or_raise parse_token (decoder.token body))
    keep_token ref (chosen_token t)

  -- What the probe of the registry calls for: no token at all, an error, or a token of its realm.
  unfoldable pub challenged : OciRef → Answer → Exec (Guest World) Error Bytes
  challenged ref a =
      let (realm, service) = parse_www_authenticate a.www_authenticate in
      if a.status == 200
      then pure []
      else if a.status == 401
      then (if same realm [] then raise no_realm else fetch_token ref realm service)
      else raise (registry_status a.status)

  abbrev pub known_or_fetched : OciRef → Option Bytes → Exec (Guest World) Error Bytes
  known_or_fetched ref (some token) = pure token
  known_or_fetched ref none =
      request probe_registry (base_url ref ++ codes "/v2/") [] >>= challenged ref

  -- getAuthToken
  unfoldable pub get_auth_token : OciRef → Exec (Guest World) Error Bytes
  get_auth_token ref g = known_or_fetched ref (lookup (cache_key_of ref) g.auth_tokens) g

  abbrev accept : Bytes → List (Bytes × Bytes)
  accept types = (codes "Accept", types) ∷ []

  -- fetchManifestByDigest
  unfoldable pub fetch_manifest_by_digest :
      OciRef → Bytes → Bytes → Exec (Guest World) Error OciManifest
  fetch_manifest_by_digest ref token digest = do
    a ← request fetch_by_digest (manifest_url ref digest) (
        bearer token
        ++ accept (
            codes
              "application/vnd.oci.image.manifest.v1+json, application/vnd.docker.distribution.manifest.v2+json"))
    lift_result (of_status digest_status a)
    body ← lift_result (read_body parse_manifest a)
    lift_result (or_raise parse_manifest (decoder.manifest body))

  abbrev platform_error : Result (List Bytes) Bytes → Result Error Bytes
  platform_error (ok digest) = ok digest
  platform_error (err available) = err (no_platform available)

  unfoldable pub resolve_list : OciRef → Bytes → Bytes → Exec (Guest World) Error OciManifest
  resolve_list ref token body = do
    index ← lift_result (or_raise parse_manifest_list (decoder.manifest_list body))
    digest ← lift_result (platform_error (select_platform index (codes "linux") (codes "arm64")))
    fetch_manifest_by_digest ref token digest

  -- fetchManifest
  unfoldable pub fetch_manifest_of : OciRef → Bytes → Exec (Guest World) Error OciManifest
  fetch_manifest_of ref token = do
    a ← request fetch_manifest (manifest_url ref ref.tag) (
        bearer token
        ++ accept (
            join
              (codes "application/vnd.oci.image.manifest.v1+json"
                ∷ codes "application/vnd.docker.distribution.manifest.v2+json"
                ∷ codes "application/vnd.oci.image.index.v1+json"
                ∷ codes "application/vnd.docker.distribution.manifest.list.v2+json"
                ∷ [])
              (codes ", ")))
    lift_result (of_status manifest_status a)
    body ← lift_result (read_body read_manifest a)
    (if is_manifest_list a.content_type
        then resolve_list ref token body
        else lift_result (or_raise parse_manifest (decoder.manifest body)))

  -- A failed step whose temporary file is removed
  abbrev pub or_drop : Error → Bytes → (World → Bool × World) → Exec (Guest World) Error Unit
  or_drop e tmp m g =
      let (done, w₁) = m g.world in
      if done
      then (ok tt, record g { world = w₁ })
      else (err e, record g { world = (os.remove tmp w₁).1 })

  abbrev pub create_tmp : Bytes → Exec (Guest World) Error Unit
  create_tmp tmp g =
      let (done, w₁) = client.create tmp g.world in
      (if done then ok tt else err create_temporary, record g { world = w₁ })

  -- fetchBlob
  unfoldable pub fetch_blob_to : OciRef → Bytes → Bytes → Bytes → Exec (Guest World) Error Unit
  fetch_blob_to ref token digest path = do
    a ← request (digest_error digest fetch_blob) (blob_url ref digest) (bearer token)
    lift_result (of_status (λ n. digest_error digest (blob_status n)) a)
    create_tmp (path ++ codes ".tmp")
    or_drop (digest_error digest download_blob) (path ++ codes ".tmp")
        (client.copy_body (path ++ codes ".tmp"))
    or_drop rename_blob (path ++ codes ".tmp") (os.rename (path ++ codes ".tmp") path)
    lift_result (first_16 digest)
