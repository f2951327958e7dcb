-- ===== src/Agent/Oci/Selection.antt =====
-- The platform that is chosen from a manifest list, and the challenge that is read.
use aetheria.Prelude.{
  ◌≡◌, refl, true, false, none, some, List, [], ◌∷◌, ◌++◌, arith, Bytes, All, ok, err, inl, inr, ap,
  Bool-cases,
}
use aetheria.Agent.Oci.{OciDescriptor, matches, find_platform, available, select_platform}

-- A list of manifests cut at the first one for the platform.
pub record FirstMatch (os arch : Bytes) (ms : List OciDescriptor) (digest : Bytes) : Type 0 where
  pub before : List OciDescriptor
  pub chosen : OciDescriptor
  pub behind : List OciDescriptor
  pub cut : ms ≡ before ++ chosen ∷ behind
  pub earlier : All (λ m. matches os arch m ≡ false) before
  pub fits : matches os arch chosen ≡ true
  pub its_digest : chosen.digest ≡ digest

find_platform_first :
    (ms : List OciDescriptor) (os arch digest : Bytes)
    → find_platform ms os arch ≡ some digest
    → FirstMatch os arch ms digest
unfolding find_platform
find_platform_first [] os arch digest h = cc
find_platform_first (m ∷ ms) os arch digest h = elim (Bool-cases (matches os arch m)) [
  | inl good ↦ record {
    before = [];
    chosen = m;
    behind = ms;
    cut = refl;
    earlier = tt;
    fits = good;
    its_digest = ground arith;
  }
  | inr bad ↦
      let r = find_platform_first ms os arch digest (ground arith) in
      record {
        before = m ∷ r.before;
        chosen = r.chosen;
        behind = r.behind;
        cut = ap (λ l. m ∷ l) r.cut;
        earlier = (bad, r.earlier);
        fits = r.fits;
        its_digest = r.its_digest;
      }
]

find_platform-none :
    (ms : List OciDescriptor) (os arch : Bytes)
    → find_platform ms os arch ≡ none
    → All (λ m. matches os arch m ≡ false) ms
unfolding find_platform
find_platform-none [] os arch h = tt
find_platform-none (m ∷ ms) os arch h = (ground arith, find_platform-none ms os arch (ground arith))

-- A digest that selectPlatform returns is that of the first manifest for the platform; an error
-- means that no manifest is for the platform, and lists the platforms that there are.
pub select_platform_lem :
    (ms : List OciDescriptor) (os arch : Bytes)
    → ((digest : Bytes) → select_platform ms os arch ≡ ok digest → FirstMatch os arch ms digest)
      × ((others : List Bytes)
          → select_platform ms os arch ≡ err others
          → All (λ m. matches os arch m ≡ false) ms × (others ≡ available ms))
unfolding select_platform
select_platform_lem ms os arch = (
  λ digest h. find_platform_first ms os arch digest (ground arith),
  λ others h. (find_platform-none ms os arch (ground arith), ground arith),
)
