-- ===== src/Agent/Container/Names.antt =====
-- Which names a container may have, and where its files are.
use aetheria.Prelude.{◌≡◌, ◌≢◌, refl, subst, true, false, [], ◌∷◌, ◌++◌, arith, Bytes, codes, ok}
use aetheria.Text.{contains_any, contains_any-Lacks, contains_byte, join, Lacks}
use aetheria.FilePath.{IsPlain, is_abs, components, join_path, join_path-plain}
use aetheria.Agent.Container.State.{validate_container_name}

abbrev refused : Bytes
refused = codes "/\\. \t\n"

module _ (name : Bytes) (h : validate_container_name name ≡ ok tt) where
  none_refused : contains_any name refused ≡ false
  unfolding validate_container_name
  none_refused = ground arith

  filled : name ≢ []
  unfolding validate_container_name
  filled = ground arith

  no_dot : Lacks b'.' name
  unfolding contains_byte
  no_dot = contains_any-Lacks name refused b'.' refl none_refused

  no_slash : Lacks b'/' name
  unfolding contains_byte
  no_slash = contains_any-Lacks name refused b'/' refl none_refused

  starts_with_dot : (s : Bytes) → name ≢ b'.' ∷ s
  starts_with_dot s e = (subst (Lacks b'.') e no_dot).0 refl

  validate_container_name-IsPlain : IsPlain name
  validate_container_name-IsPlain = record {
    filled = filled;
    not_dot = starts_with_dot [];
    not_up = starts_with_dot (b'.' ∷ []);
    one = no_slash;
  }

-- Below an absolute directory, the directory of a container with an accepted name is one component
-- further down than it.
pub validate_container_name-join_path :
    (dir name : Bytes)
    → is_abs dir ≡ true
    → validate_container_name name ≡ ok tt
    → join_path (dir ∷ name ∷ []) ≡ b'/' ∷ join (components dir ++ name ∷ []) (codes "/")
validate_container_name-join_path dir name rooted h =
    join_path-plain dir name rooted (validate_container_name-IsPlain name h)
