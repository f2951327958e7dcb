-- ===== src/Agent/Oci/Redirects.antt =====
-- The redirects that ociHTTPClient follows (oci.go): CheckRedirect.
use aetheria.Prelude.{
  ◌≡◌, ◌⊎◌, inl, inr, refl, Option, none, List, [], ◌∷◌, ◌++◌, Bytes, if◌then◌else◌, same,
  Bool-cases, arith, All, All-append,
}

-- A request, with its header `Authorization`
pub record SentRequest : Type 0 where
  pub host : Bytes
  pub authorization : Option Bytes

-- CheckRedirect, with the requests before this one, the first one first
unfoldable pub check_redirect : SentRequest → List SentRequest → SentRequest
check_redirect req [] = req
check_redirect req (first ∷ via) =
    if same req.host first.host then req else record req { authorization = none }

-- The requests that are sent when the hosts of `hosts` follow by redirects. `header` is what net/http sets
-- as the header of a request behind others before it calls CheckRedirect.
module _ (header : List SentRequest → Bytes → Option Bytes) where
  unfoldable pub follow : List SentRequest → List Bytes → List SentRequest
  follow via [] = via
  follow via (host ∷ hosts) =
      let req = check_redirect (record { host = host; authorization = header via host }) via in
      follow (via ++ req ∷ []) hosts

-- The request carries no token, or goes to the first host.
abbrev pub Guarded : Bytes → SentRequest → Type 0
Guarded home r = (r.authorization ≡ none) ⊎ (r.host ≡ home)

check_redirect-Guarded :
    (req first : SentRequest) (via : List SentRequest)
    → Guarded first.host (check_redirect req (first ∷ via))
unfolding check_redirect
check_redirect-Guarded req first via = elim (Bool-cases (same req.host first.host)) [
  | inl home ↦ rw home (inr (ground (arith, home)))
  | inr away ↦ rw away (inl refl)
]

module _ (header : List SentRequest → Bytes → Option Bytes) where
  follow_more :
      (first : SentRequest) (via : List SentRequest) (hosts : List Bytes)
      → All (Guarded first.host) (first ∷ via)
      → All (Guarded first.host) (follow header (first ∷ via) hosts)
  unfolding follow
  follow_more first via [] h = h
  follow_more first via (host ∷ hosts) h =
      let asked : SentRequest = record { host = host; authorization = header (first ∷ via) host } in
      let req = check_redirect asked (first ∷ via) in
      follow_more first (via ++ req ∷ []) hosts (
        All-append (Guarded first.host) (first ∷ via) (req ∷ []) h
          (check_redirect-Guarded asked first via, tt))

  -- However long a chain of redirects is, and whatever header net/http sets: every request that carries
  -- a token goes to the host that the first request went to.
  pub follow-Guarded :
      (first : SentRequest) (hosts : List Bytes)
      → All (Guarded first.host) (follow header (first ∷ []) hosts)
  follow-Guarded first hosts = follow_more first [] hosts (inr refl, tt)
