-- ===== src/Agent/Oci/CacheNames.antt =====
-- The directory name under which a pulled image is cached.
use aetheria.Prelude.{ℕ, ◌≡◌, ◌≢◌, true, [], ◌∷◌, ◌++◌, map, arith, Bytes, codes}
use aetheria.Text.{contains_byte, Lacks}
use aetheria.FilePath.{IsPlain}
use aetheria.Agent.Oci.{
  split_tag, split_registry, with_library, parse_oci_ref, qualified, short_name, to_dash,
}
use aetheria.Agent.Oci.RoundTrip.{split_tag_tagged}

-- Neither a slash nor a colon is left.
map-to_dash-Lacks : (s : Bytes) → Lacks b'/' (map to_dash s) × Lacks b':' (map to_dash s)
map-to_dash-Lacks [] = (tt, tt)
map-to_dash-Lacks (c ∷ s) = ground (arith, map-to_dash-Lacks s)

contains-map-to_dash :
    (s : Bytes) → contains_byte b'/' s ≡ true → contains_byte b'-' (map to_dash s) ≡ true
unfolding contains_byte
contains-map-to_dash [] h = cc
contains-map-to_dash (c ∷ s) h = ground (arith, contains-map-to_dash s)

contains_byte_at : (b : ℕ) (x y : Bytes) → contains_byte b (x ++ b ∷ y) ≡ true
unfolding contains_byte
contains_byte_at b [] y = ground arith
contains_byte_at b (c ∷ x) y = ground (arith, contains_byte_at b x y)

-- A parsed reference names a repository with a slash in it, counting the registry.
qualified-contains : (s : Bytes) → contains_byte b'/' (qualified (parse_oci_ref s)) ≡ true
unfolding qualified parse_oci_ref with_library
qualified-contains s =
    let p = split_registry (split_tag s).0 in
    ground (arith, contains_byte_at b'/' p.0 p.1, contains_byte_at b'/' (codes "library") p.1)

dash-IsPlain : (s : Bytes) → contains_byte b'-' s ≡ true → Lacks b'/' s → IsPlain s
unfolding contains_byte
dash-IsPlain s h one = record {
  filled = λ e. ground arith;
  not_dot = λ e. ground arith;
  not_up = λ e. ground arith;
  one = one;
}

-- Whatever the text of an image reference, its cache name is one plain path component: not empty,
-- not `.` or `..`, and without a slash.
pub short_name-IsPlain : (s : Bytes) → IsPlain (short_name (parse_oci_ref s))
unfolding short_name
short_name-IsPlain s =
    let q = qualified (parse_oci_ref s) in
    dash-IsPlain (map to_dash q) (contains-map-to_dash q (qualified-contains s))
      (map-to_dash-Lacks q).0

-- The cache name does not depend on the tag: two references that differ in their tags only, each
-- without colon and slash, share one.
pub short_name_ignores_tag :
    (repo t u : Bytes)
    → repo ≢ []
    → Lacks b':' t × Lacks b'/' t
    → Lacks b':' u × Lacks b'/' u
    → short_name (parse_oci_ref (repo ++ b':' ∷ t)) ≡ short_name (parse_oci_ref (repo ++ b':' ∷ u))
unfolding short_name parse_oci_ref qualified
short_name_ignores_tag repo t u filled ht hu =
    rw (split_tag_tagged repo t filled ht.0 ht.1, split_tag_tagged repo u filled hu.0 hu.1)
