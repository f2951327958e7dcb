-- ===== src/Agent/Oci/RoundTrip.antt =====
-- A reference in canonical form is parsed back from its text.
use aetheria.Prelude.{
  ℕ, zero, suc, ◌+◌, ◌≡◌, ◌≢◌, refl, true, false, ◌⊎◌, inl, inr, some, [], ◌∷◌, ◌++◌, arith, Bytes,
  if◌then◌else◌, length, drop, take-append, drop-append, Option-cases,
}
use aetheria.Text.{
  last_index, contains_byte, split_n, Lacks, last_index-append, last_index-Lacks, cut-append,
  contains_byte-Lacks,
}
use aetheria.Agent.Oci.{
  OciRef, docker_hub, latest, is_registry, split_tag, split_registry, with_library, parse_oci_ref,
  qualified, show_oci_ref,
}

contains_byte-append : (x y : Bytes) → contains_byte b'/' (x ++ b'/' ∷ y) ≡ true
unfolding contains_byte
contains_byte-append [] y = refl
contains_byte-append (c ∷ x) y = ground (arith, contains_byte-append x y)

-- Somewhere behind every colon stands a slash.
no_late_colon :
    (x y : Bytes) (i : ℕ)
    → Lacks b':' y
    → last_index (x ++ b'/' ∷ y) b':' ≡ some i
    → contains_byte b'/' (drop i (x ++ b'/' ∷ y)) ≡ true
unfolding last_index contains_byte
no_late_colon [] y i h e = ground (arith, last_index-Lacks y b':' h)
no_late_colon (c ∷ x) y zero h e = ground (arith, contains_byte-append x y)
no_late_colon (c ∷ x) y (suc i) h e = ground (arith, no_late_colon x y i h)

drop_tag : (body tag : Bytes) → drop (length body + 1) (body ++ b':' ∷ tag) ≡ tag
drop_tag [] tag = refl
drop_tag (c ∷ body) tag =
    let e : suc (length body) + 1 ≡ suc (length body + 1) = omega arith in rw e (drop_tag body tag)

pub split_tag_tagged :
    (body tag : Bytes)
    → body ≢ []
    → Lacks b':' tag
    → Lacks b'/' tag
    → split_tag (body ++ b':' ∷ tag) ≡ (body, tag)
unfolding split_tag contains_byte
split_tag_tagged [] tag filled no_colon no_slash = absurd (filled refl)
split_tag_tagged (c ∷ body) tag filled no_colon no_slash = ground (
  arith,
  last_index-append (c ∷ body) tag b':' no_colon,
  drop-append (c ∷ body) (b':' ∷ tag),
  take-append (c ∷ body) (b':' ∷ tag),
  drop_tag (c ∷ body) tag,
  contains_byte-Lacks tag b'/' no_slash,
)

split_tag_plain : (x y : Bytes) → Lacks b':' y → split_tag (x ++ b'/' ∷ y) ≡ (x ++ b'/' ∷ y, latest)
unfolding split_tag
split_tag_plain x y h = elim (Option-cases (last_index (x ++ b'/' ∷ y) b':')) [
  | inl absent ↦ rw (absent, split_tag)
  | inr (i, found) ↦ rw (found, split_tag, no_late_colon x y i h found) (ground arith)
]

split_registry_at :
    (a b : Bytes)
    → Lacks b'/' a
    → split_registry (a ++ b'/' ∷ b)
      ≡ (if is_registry a then (a, b) else (docker_hub, a ++ b'/' ∷ b))
unfolding split_registry split_n
split_registry_at a b h = ground (arith, cut-append a b b'/' h)

-- A reference to another registry than Docker Hub.
pub record IsElsewhere (r : OciRef) : Type 0 where
  pub other : r.registry ≢ docker_hub
  pub known : is_registry r.registry ≡ true
  pub one : Lacks b'/' r.registry

-- A repository of Docker Hub below an owner whose name does not look like a registry.
pub record IsOnHub (r : OciRef) : Type 0 where
  pub hub : r.registry ≡ docker_hub
  pub owner : Bytes
  pub image : Bytes
  pub path : r.repo ≡ owner ++ b'/' ∷ image
  pub plain : is_registry owner ≡ false
  pub one : Lacks b'/' owner
  pub clear : Lacks b':' image

-- A reference in the form that the program itself produces: no colon in the repository, and neither
-- colon nor slash in the tag.
pub record IsCanonical (r : OciRef) : Type 0 where
  pub tag_colon : Lacks b':' r.tag
  pub tag_slash : Lacks b'/' r.tag
  pub repo_colon : Lacks b':' r.repo
  pub place : IsElsewhere r ⊎ IsOnHub r

-- The text of a reference without its tag.
record IsQualified (r : OciRef) (q : Bytes) : Type 0 where
  front : Bytes
  back : Bytes
  path : q ≡ front ++ b'/' ∷ back
  clear : Lacks b':' back
  parts : split_registry q ≡ (r.registry, r.repo)
  library : with_library r.registry r.repo ≡ r.repo

qualified-IsQualified :
    (r : OciRef) → Lacks b':' r.repo → IsElsewhere r ⊎ IsOnHub r → IsQualified r (qualified r)
unfolding qualified with_library
qualified-IsQualified r clear (inl e) = record {
  front = r.registry;
  back = r.repo;
  path = ground (arith, e.other);
  clear = clear;
  parts = ground (arith, e.other, e.known, split_registry_at r.registry r.repo e.one);
  library = ground (arith, e.other);
}
qualified-IsQualified r clear (inr h) = record {
  front = h.owner;
  back = h.image;
  path = ground (arith, h.hub, h.path);
  clear = h.clear;
  parts = ground (arith, h.hub, h.path, h.plain, split_registry_at h.owner h.image h.one);
  library = ground (arith, h.hub, h.path, contains_byte-append h.owner h.image);
}

IsQualified-ne-nil : {r : OciRef} {q : Bytes} → IsQualified r q → q ≢ []
IsQualified-ne-nil {q} h = ne_nil h.front h.back h.path
  where
    ne_nil : (x y : Bytes) → q ≡ x ++ b'/' ∷ y → q ≢ []
    ne_nil [] y e n = cc
    ne_nil (c ∷ x) y e n = cc

-- The text of a canonical reference is parsed back to the same registry, repository and tag.
pub parse-show_oci_ref : (r : OciRef) → IsCanonical r → parse_oci_ref (show_oci_ref r) ≡ r
unfolding parse_oci_ref show_oci_ref
parse-show_oci_ref r h =
    let q = qualified-IsQualified r h.repo_colon h.place in
    ground (
      arith,
      q.path,
      q.parts,
      q.library,
      split_tag_plain q.front q.back q.clear,
      split_tag_tagged (qualified r) r.tag (IsQualified-ne-nil q) h.tag_colon h.tag_slash,
    )
