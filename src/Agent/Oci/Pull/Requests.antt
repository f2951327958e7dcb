-- ===== src/Agent/Oci/Pull/Requests.antt =====
-- What the requests of a pull keep of the world (oci.go): getAuthToken, fetchManifest and fetchBlob.
use aetheria.Prelude.{
  Bool, true, false, if◌then◌else◌, Option, none, some, List, Bytes, Result, ok, err, Exec,
  Preserves, preserves_rules, lookup,
}
use aetheria.Agent.Types.{Error}
use aetheria.Agent.Os.{Os, Guest}
use aetheria.Agent.Oci.{OciRef}
use aetheria.Agent.Oci.Layers.{Files}
use aetheria.Agent.Oci.Registry.{
  Client, Decoder, request, keep_token, cache_key_of, Answer, fetch_token, challenged,
  known_or_fetched, get_auth_token, fetch_manifest_by_digest, resolve_list, fetch_manifest_of,
  fetch_blob_to, or_drop, create_tmp, lift_result,
}
use aetheria.Agent.Oci.Pull.{Tar, wrapped}
use aetheria.Agent.Oci.Pull.Layers.{KeptByAll}

module _ (os : Os) (files : Files os.World) (tar : Tar os.World) (client : Client os.World)
    (decoder : Decoder) (P : os.World → Type 0) (kept : KeptByAll os files tar client P) where
  open os use {World}

  abbrev pub KeepsG : {A : Type 0} → Exec (Guest World) Error A → Type 0
  KeepsG m = Preserves (λ (g : Guest World). P g.world) m

  pub if-KeepsG :
      {A : Type 0} (b : Bool) (m n : Exec (Guest World) Error A)
      → KeepsG m
      → KeepsG n
      → KeepsG (if b then m else n)
  if-KeepsG true m n hm hn = hm
  if-KeepsG false m n hm hn = hn

  pub if-kept_guest :
      {A : Type 0} (b : Bool) (x y : Result Error A × Guest World)
      → P x.1.world
      → P y.1.world
      → P (if b then x else y).1.world
  if-kept_guest true x y hx hy = hx
  if-kept_guest false x y hx hy = hy

  pub lift_result-KeepsG :
      {A : Type 0} (r : Result Error A) → KeepsG (lift_result os client decoder r)
  lift_result-KeepsG r = record { after = λ g p. p }

  pub request-KeepsG :
      (e : Error) (u : Bytes) (h : List (Bytes × Bytes)) → KeepsG (request os client decoder e u h)
  unfolding request
  request-KeepsG e u h = record { after = λ g p. kept.get u h g.world p }

  pub or_drop-KeepsG :
      (e : Error) (tmp : Bytes) (m : World → Bool × World)
      → ((w : World) → P w → P (m w).1)
      → KeepsG (or_drop os client decoder e tmp m)
  or_drop-KeepsG e tmp m h = record {
    after = λ g p.
        let w₁ = (m g.world).1 in
        if-kept_guest (m g.world).0 (ok tt, record g { world = w₁ })
          (err e, record g { world = (os.remove tmp w₁).1 }) (h g.world p)
          (kept.remove tmp w₁ (h g.world p));
  }

  pub create_tmp-KeepsG : (tmp : Bytes) → KeepsG (create_tmp os client decoder tmp)
  create_tmp-KeepsG tmp = record { after = λ g p. kept.create tmp g.world p }

  pub fetch_blob_to-KeepsG :
      (ref : OciRef) (token digest path : Bytes)
      → KeepsG (fetch_blob_to os client decoder ref token digest path)
  unfolding fetch_blob_to
  fetch_blob_to-KeepsG ref token digest path =
      search
        (
          preserves_rules, request-KeepsG, lift_result-KeepsG, create_tmp-KeepsG, or_drop-KeepsG,
          kept.copy_body, kept.rename,
        )
        depth 20

  pub wrapped-KeepsG :
      {A : Type 0} (f : Error → Error) (m : Exec (Guest World) Error A)
      → KeepsG m
      → KeepsG (wrapped f m)
  unfolding wrapped
  wrapped-KeepsG f m h = record { after = λ g p. h.after g p }

  pub keep_token-KeepsG :
      (ref : OciRef) (token : Bytes) → KeepsG (keep_token os client decoder ref token)
  keep_token-KeepsG ref token = record { after = λ g p. p }

  pub fetch_token-KeepsG :
      (ref : OciRef) (realm service : Bytes)
      → KeepsG (fetch_token os client decoder ref realm service)
  unfolding fetch_token
  fetch_token-KeepsG ref realm service =
      search (preserves_rules, request-KeepsG, lift_result-KeepsG, keep_token-KeepsG) depth 20

  pub challenged-KeepsG : (ref : OciRef) (a : Answer) → KeepsG (challenged os client decoder ref a)
  unfolding challenged
  challenged-KeepsG ref a = search (preserves_rules, if-KeepsG, fetch_token-KeepsG) depth 12

  pub known_or_fetched-KeepsG :
      (ref : OciRef) (known : Option Bytes) → KeepsG (known_or_fetched os client decoder ref known)
  known_or_fetched-KeepsG ref none =
      search (preserves_rules, request-KeepsG, challenged-KeepsG) depth 8
  known_or_fetched-KeepsG ref (some token) = search (preserves_rules)

  pub get_auth_token-KeepsG : (ref : OciRef) → KeepsG (get_auth_token os client decoder ref)
  unfolding get_auth_token
  get_auth_token-KeepsG ref = record {
    after =
        λ g p. (known_or_fetched-KeepsG ref (lookup (cache_key_of ref) g.auth_tokens)).after g p;
  }

  pub resolve_list-KeepsG :
      (ref : OciRef) (token body : Bytes) → KeepsG (resolve_list os client decoder ref token body)
  unfolding resolve_list fetch_manifest_by_digest
  resolve_list-KeepsG ref token body =
      search (preserves_rules, request-KeepsG, lift_result-KeepsG) depth 20

  pub fetch_manifest_of-KeepsG :
      (ref : OciRef) (token : Bytes) → KeepsG (fetch_manifest_of os client decoder ref token)
  unfolding fetch_manifest_of
  fetch_manifest_of-KeepsG ref token =
      search (preserves_rules, request-KeepsG, lift_result-KeepsG, if-KeepsG, resolve_list-KeepsG)
        depth 20
