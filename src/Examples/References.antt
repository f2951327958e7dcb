-- ===== src/Examples/References.antt =====
-- Image references, cache names, manifest lists and captured output at concrete inputs.
use aetheria.Prelude.{◌≡◌, refl, arith, codes, bytes_dec, inl, some, [], ◌∷◌, All}
use aetheria.Agent.Oci.Redirects.{SentRequest, Guarded, follow, follow-Guarded}
use aetheria.Text.{last_index, contains_byte, split_n}
use aetheria.FilePath.{IsPlain}
use aetheria.Agent.Oci.{
  OciRef, parse_oci_ref, show_oci_ref, split_tag, split_registry, with_library, is_registry,
  short_name, docker_hub,
}
use aetheria.Agent.Oci.RoundTrip.{parse-show_oci_ref, IsCanonical}
use aetheria.Agent.Oci.CacheNames.{short_name-IsPlain, short_name_ignores_tag}

parsed_short :
    parse_oci_ref (codes "nginx:1.25")
    ≡ record { registry = docker_hub; repo = codes "library/nginx"; tag = codes "1.25" }
unfolding parse_oci_ref split_tag split_registry with_library is_registry last_index contains_byte
    split_n bytes_dec
parsed_short = refl

abbrev owned : OciRef
owned = record { registry = codes "ghcr.io"; repo = codes "owner/repo"; tag = codes "v2" }

owned-IsCanonical : IsCanonical owned
unfolding is_registry contains_byte
owned-IsCanonical = record {
  tag_colon = omega arith;
  tag_slash = omega arith;
  repo_colon = omega arith;
  place = inl (record { other = λ e. cc; known = refl; one = omega arith });
}

parse-show_oci_ref_example : parse_oci_ref (show_oci_ref owned) ≡ owned
parse-show_oci_ref_example = parse-show_oci_ref owned owned-IsCanonical

short_name-IsPlain_example : IsPlain (short_name (parse_oci_ref (codes "../../etc")))
short_name-IsPlain_example = short_name-IsPlain (codes "../../etc")

short_name_ignores_tag_example :
    short_name (parse_oci_ref (codes "nginx:1.25"))
    ≡ short_name (parse_oci_ref (codes "nginx:1.26"))
short_name_ignores_tag_example =
    short_name_ignores_tag (codes "nginx") (codes "1.25") (codes "1.26") (cc)
      (omega arith, omega arith) (omega arith, omega arith)

abbrev registry_request : SentRequest
registry_request = record { host = docker_hub; authorization = some (codes "Bearer t") }

-- A registry that redirects to a store of blobs, which redirects back
follow-Guarded_example : All (Guarded docker_hub) (
    follow
      (λ via host. registry_request.authorization)
      (registry_request ∷ [])
      (codes "cdn.example" ∷ docker_hub ∷ []))
follow-Guarded_example =
    follow-Guarded (λ via host. registry_request.authorization) registry_request
      (codes "cdn.example" ∷ docker_hub ∷ [])
