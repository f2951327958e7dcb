-- ===== src/Agent/Oci/Registry/Tokens.antt =====
-- How long a token lives (oci.go): the cache of tokens.
use aetheria.Prelude.{
  ◌≡◌, ◌≢◌, refl, Option, none, some, List, [], Bytes, ok, Exec, lookup, ◌∙◌, ap,
  lookup-insert_self, Gives, gives_rules,
}
use aetheria.Agent.Types.{Error}
use aetheria.Agent.Os.{Os, Guest}
use aetheria.Agent.Oci.{OciRef}
use aetheria.Agent.Oci.Registry.{
  Client, Decoder, Answer, keep_token, cache_key_of, fetch_token, challenged, known_or_fetched,
  get_auth_token,
}

module _ (os : Os) (client : Client os.World) (decoder : Decoder) (ref : OciRef) where
  open os use {World}

  -- A token that was given is kept for its repository, unless it is the empty one.
  abbrev IsKept : Bytes → Guest World → Type 0
  IsKept token g = token ≢ [] → lookup (cache_key_of ref) g.auth_tokens ≡ some token

  abbrev Keeps : Exec (Guest World) Error Bytes → Type 0
  Keeps m = Gives IsKept m

  keep_token-Keeps : (token : Bytes) → Keeps (keep_token os client decoder ref token)
  keep_token-Keeps token = record {
    given = λ g t h _.
        let same_token : token ≡ t = cc in
        lookup-insert_self (cache_key_of ref) token g.auth_tokens ∙ ap some same_token;
  }

  fetch_token-Keeps :
      (realm service : Bytes) → Keeps (fetch_token os client decoder ref realm service)
  unfolding fetch_token
  fetch_token-Keeps realm service = search (gives_rules, keep_token-Keeps) depth 12

  none_Keeps : Keeps (λ g. (ok [], g))
  none_Keeps = record { given = λ g t h filled. absurd (filled (cc)) }

  challenged-Keeps : (a : Answer) → Keeps (challenged os client decoder ref a)
  unfolding challenged
  challenged-Keeps a = search (gives_rules, fetch_token-Keeps, none_Keeps) depth 12

  known_or_fetched-IsKept :
      (known : Option Bytes) (g : Guest World) (token : Bytes)
      → lookup (cache_key_of ref) g.auth_tokens ≡ known
      → (known_or_fetched os client decoder ref known g).0 ≡ ok token
      → IsKept token (known_or_fetched os client decoder ref known g).1
  known_or_fetched-IsKept none g token at h =
      let fetched : Keeps (known_or_fetched os client decoder ref none) =
        search (gives_rules, challenged-Keeps) in
      fetched.given g token h
  known_or_fetched-IsKept (some t) g token at h = λ _. at ∙ ap some (cc)

  again :
      (known : Option Bytes) (g : Guest World) (token : Bytes)
      → known ≡ some token
      → known_or_fetched os client decoder ref known g ≡ (ok token, g)
  again known g token h = rw h refl

-- Once a token that is not empty was given for a repository, the same one is given in any state that
-- has the same tokens, however much else has changed, and nothing is asked of the registry.
pub get_auth_token-forever :
    (os : Os) (client : Client os.World) (decoder : Decoder) (ref : OciRef) (token : Bytes)
    (g later : Guest os.World)
    → (get_auth_token os client decoder ref g).0 ≡ ok token
    → token ≢ []
    → later.auth_tokens ≡ (get_auth_token os client decoder ref g).1.auth_tokens
    → get_auth_token os client decoder ref later ≡ (ok token, later)
unfolding get_auth_token
get_auth_token-forever os client decoder ref token g later given filled same_tokens =
    let known =
      known_or_fetched-IsKept os client decoder ref (lookup (cache_key_of ref) g.auth_tokens) g
        token refl given filled in
    again os client decoder ref (lookup (cache_key_of ref) later.auth_tokens) later token
      (ap (λ (d : List (Bytes × Bytes)). lookup (cache_key_of ref) d) same_tokens ∙ known)
