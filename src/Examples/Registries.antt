-- ===== src/Examples/Registries.antt =====
-- Pulls that talk to a registry.
use aetheria.Prelude.{
  ℕ, ◌+◌, ◌≡◌, refl, true, false, if◌then◌else◌, none, some, [], ◌∷◌, Bytes, codes, err, bytes_dec,
  ℕ_discrete, lookup, insert,
}
use aetheria.Text.{join, contains, has_prefix, split, split_n, trim_prefix}
use aetheria.FilePath.{join_path, clean, components, is_abs, dir}
use aetheria.Agent.Types.{layer_failed, blob_status}
use aetheria.Agent.Os.{Os, absent}
use aetheria.Agent.Oci.{
  OciRef, OciDescriptor, OciManifest, parse_oci_ref, split_registry, is_manifest_list,
  parse_www_authenticate,
}
use aetheria.Agent.Oci.Layers.{Files}
use aetheria.Agent.Oci.Registry.{
  Client, Decoder, get_auth_token, challenged, fetch_token, request, first_16, fetch_blob_to,
  fetch_manifest_of,
}
use aetheria.Agent.Oci.Pull.{
  Tar, wrapped, pull_oci_image, pull_manifest, add_all, add_layers, download_layer,
}
use aetheria.Agent.Oci.Pull.Layers.{KeptByAll}
use aetheria.Agent.Oci.Pull.Markers.{pull_oci_image-unmarked}
use aetheria.Examples.Machine.{calm, fresh_guest}

-- The state counts the files that are written.
abbrev disk : Os
disk = record calm {
  stat = λ path w. absent;
  write_file = λ path b w. (true, w + 1);
  start = λ c w. (none, w);
}

-- A registry that asks for a token, and has a manifest but not the layer.
abbrev registry : Client ℕ
registry = record {
  get = λ url headers w. (
    if contains url (codes "/blobs/")
        then some
            (record { status = 404; content_type = []; www_authenticate = []; body = some [] })
        else if contains url (codes "registry.test/v2/a/manifests/")
        then some
            (record { status = 200; content_type = []; www_authenticate = []; body = some [] })
        else if contains url (codes "token?")
        then some
            (record { status = 200; content_type = []; www_authenticate = []; body = some [] })
        else some (record {
          status = 401;
          content_type = [];
          www_authenticate = codes "Bearer realm=\"https://auth.test/token\",service=\"s\"";
          body = some [];
        }),
    w,
  );
  create = λ path w. (true, w);
  copy_body = λ path w. (true, w);
}

abbrev part : OciDescriptor
part = record {
  media_type = [];
  digest = codes "sha256:0123456789abcdef";
  size = 1;
  platform = none;
}

abbrev decoder : Decoder
decoder = record {
  token = λ body. some (codes "secret", []);
  manifest = λ body. some (record { media_type = []; config = part; layers = part ∷ [] });
  manifest_list = λ body. none;
}

abbrev files : Files ℕ
files = record {
  read_dir = λ d w. [];
  remove_all = λ p w. (true, w);
  remove = λ p w. w;
  mkdir_all = λ p w. (true, w);
  symlink = λ to p w. (false, w);
  open_source = λ p w. (true, w);
  create = λ p w. (true, w);
  copy = λ p content w. (true, w);
  close = λ p w. (true, w);
  chown = λ p w. w;
}

abbrev tar : Tar ℕ
tar = record {
  open_layer_file = λ p w. (true, w);
  extract_to = λ p q w. (some 0, w);
  walk = λ p w. [];
}

abbrev Untouched : ℕ → Type 0
Untouched w = w ≡ 100

Untouched-KeptByAll : KeptByAll disk files tar registry Untouched
Untouched-KeptByAll = record {
  mkdir_all = λ p w h. h;
  remove_all = λ p w h. h;
  remove = λ p w h. h;
  rename = λ p q w h. h;
  get = λ u headers w h. h;
  create = λ p w h. h;
  copy_body = λ p w h. h;
  open_layer_file = λ p w h. h;
  extract_to = λ p q w h. h;
  merge_remove_all = λ p w h. h;
  merge_remove = λ p w h. h;
  merge_mkdir_all = λ p w h. h;
  merge_symlink = λ p q w h. h;
  merge_open = λ p w h. h;
  merge_create = λ p w h. h;
  merge_copy = λ p b w h. h;
  merge_close = λ p w h. h;
  merge_chown = λ p w h. h;
}

abbrev name : Bytes
name = codes "registry.test/a"

fails :
    (pull_oci_image disk files tar registry decoder name fresh_guest).0
    ≡ err (layer_failed 0 (blob_status 404))
unfolding pull_oci_image parse_oci_ref wrapped get_auth_token lookup request contains split_registry
    split_n aetheria.Agent.Oci.split_tag aetheria.Text.last_index aetheria.Agent.Oci.is_registry
    aetheria.Text.contains_byte challenged bytes_dec parse_www_authenticate
    aetheria.Agent.Oci.read_parts split trim_prefix add_all add_layers download_layer pull_manifest
    fetch_blob_to fetch_manifest_of fetch_token first_16 is_manifest_list
    aetheria.Agent.Oci.read_part aetheria.Agent.Oci.short_name aetheria.Agent.Oci.with_library
    aetheria.FilePath.base clean components dir is_abs join_path insert
    aetheria.Text.Decimal.decimal aetheria.Text.Decimal.emit has_prefix aetheria.Text.trim_space
    aetheria.Text.cut join ℕ_discrete
fails = refl

-- The layer is not there, and no file is written.
pull_oci_image-unmarked_example :
    Untouched (pull_oci_image disk files tar registry decoder name fresh_guest).1.world
pull_oci_image-unmarked_example =
    pull_oci_image-unmarked disk files tar registry decoder Untouched Untouched-KeptByAll name
      fresh_guest (layer_failed 0 (blob_status 404)) refl fails
