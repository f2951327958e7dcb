-- ===== src/Examples/Names.antt =====
-- The name of a container: accepted, and given once.
use aetheria.Prelude.{
  ◌≡◌, refl, true, [], ◌∷◌, ◌++◌, codes, ok, err, bytes_dec, ℕ_discrete, lookup, Bytes,
}
use aetheria.Text.{join, contains_any, contains_byte}
use aetheria.FilePath.{join_path, components, is_abs}
use aetheria.Agent.Types.{already_exists}
use aetheria.Agent.Container.{
  create, create_insert, check_new, validate_container_name, is_policy, choose_rootfs, check_rootfs,
}
use aetheria.Agent.Container.Names.{validate_container_name-join_path}
use aetheria.Agent.Container.Again.{create-again}
use aetheria.Examples.Machine.{calm, no_config, prepared, web_params, empty_agent}

abbrev containers_path : Bytes
containers_path = codes "/var/aetheria/containers"

web_accepted : validate_container_name (codes "web") ≡ ok tt
unfolding validate_container_name contains_any contains_byte bytes_dec ℕ_discrete
web_accepted = refl

rooted : is_abs containers_path ≡ true
unfolding is_abs
rooted = refl

validate_container_name-join_path_example :
    join_path (containers_path ∷ codes "web" ∷ [])
    ≡ b'/' ∷ join (components containers_path ++ codes "web" ∷ []) (codes "/")
validate_container_name-join_path_example =
    validate_container_name-join_path containers_path (codes "web") rooted web_accepted

web_created : (create calm no_config prepared web_params empty_agent).0 ≡ ok tt
unfolding create validate_container_name check_new choose_rootfs check_rootfs create_insert
    is_policy is_abs lookup contains_any contains_byte bytes_dec ℕ_discrete
web_created = refl

create-again_example :
    create calm no_config prepared
      (record web_params { image = codes "alpine" })
      (create calm no_config prepared web_params empty_agent).1
    ≡ (
      err (already_exists (codes "web")),
      (create calm no_config prepared web_params empty_agent).1,
    )
create-again_example =
    create-again calm no_config prepared web_params empty_agent web_created
      (record web_params { image = codes "alpine" })
      (create calm no_config prepared web_params empty_agent).1 refl (λ name q held. held)
