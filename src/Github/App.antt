-- ===== src/Github/App.antt =====
-- internal/github/app.go: the GitHub App, with its caches of installations and tokens. Signing,
-- base64, JSON and the printing of numbers are parameters.
use Prim.Native.String.{◌++◌ as ◌<>◌, len, slice}
use grid_runner.Prelude.{
  ℕ, ◌+◌, ◌-◌, String, Option, none, some, List, [], ◌∷◌, ltb, ◌==◌, if◌then◌else◌,
}
use text.Mathlib.Text.{find?}
use grid_runner.Fallible.{Result, ok, err, malformed}
use grid_runner.Exec.{Exec, pure, raise, choose, from_option, ◌>>=◌, ◌>>◌}
use grid_runner.Github.Client.{
  Reply, Network, Call, no_body, token_body, send, checked, github_base, post_status,
}

-- What the client calls and the repository does not implement.
pub record Signer : Type 0 where
  -- `encodeSegment` of a text, and the signature of a text, encoded
  pub encode_segment : String → String
  pub sign : String → Result String
  -- %d and %q
  pub decimal : ℕ → String
  pub quoted : String → String
  -- the fields that are decoded from a reply: an id, and a token with its expiry
  pub decode_id : List ℕ → Option ℕ
  pub decode_token : List ℕ → Option (String × ℕ)

-- Times are seconds.
pub record CachedToken : Type 0 where
  pub value : String
  pub expires : ℕ

pub record AppClient : Type 0 where
  pub app_id : String
  pub installs : List (String × ℕ)
  pub token_pool : List (String × CachedToken)
  pub network : Network

abbrev pub control_plane_perms : List (String × String)
control_plane_perms = ("contents", "read") ∷ ("statuses", "write") ∷ []

abbrev pub clone_perms : List (String × String)
clone_perms = ("contents", "read") ∷ []

-- A map as the list of what was stored, newest first.
module _ {V : Type 0} where
  unfoldable pub cached : String → List (String × V) → Option V
  cached k [] = none
  cached k ((j, v) ∷ rest) = if j == k then some v else cached k rest

-- `name = repo[i+1:]` after the first slash.
abbrev after_slash : String → Option ℕ → String
after_slash repo none = repo
after_slash repo (some i) = slice repo (i + 1) (len repo)

unfoldable pub repository_name : String → String
repository_name repo = after_slash repo (find? repo "/")

pub record Claims : Type 0 where
  pub iat : ℕ
  pub exp : ℕ
  pub iss : String

unfoldable pub app_claims : String → ℕ → Claims
app_claims app_id now = record { iat = now - 60; exp = now + 540; iss = app_id }

abbrev pub in_network : {A : Type 0} → Exec Network A → Exec AppClient A
in_network m c = let (r, n) = m c.network in (r, record c { network = n })

abbrev pub decoded : {A : Type 0} → Option A → Exec AppClient A
decoded none = raise malformed
decoded (some a) = pure a

module _ (S : Signer) where
  open S use {encode_segment, sign, decimal, quoted, decode_id, decode_token}

  abbrev pub claims_text : Claims → String
  claims_text c =
      "{\"iat\":"
      <> (decimal c.iat
          <> (",\"exp\":" <> (decimal c.exp <> (",\"iss\":" <> (quoted c.iss <> "}")))))

  abbrev signed : String → Result String → Result String
  signed signing (ok sig) = ok (signing <> ("." <> sig))
  signed signing (err e) = err e

  unfoldable pub app_jwt : String → ℕ → Result String
  app_jwt app_id now =
      let signing =
        encode_segment "{\"alg\":\"RS256\",\"typ\":\"JWT\"}"
        <> ("." <> encode_segment (claims_text (app_claims app_id now))) in
      signed signing (sign signing)

  abbrev pub from_signer : {A : Type 0} → Result A → Exec AppClient A
  from_signer r c = (r, c)

  -- `call`: one request, its reply checked.
  unfoldable pub call : Call → Exec AppClient Reply
  call c = do reply ← in_network (send c); in_network (checked reply); pure reply

  abbrev pub installation_call : String → String → Call
  installation_call jwt repo = record {
    method = "GET";
    url = github_base <> ("/repos/" <> (repo <> "/installation"));
    bearer = jwt;
    payload = no_body;
  }

  abbrev pub store_installation : String → ℕ → Exec AppClient ℕ
  store_installation repo id c = (ok id, record c { installs = (repo, id) ∷ c.installs })

  -- What follows when the installation is not in the cache.
  unfoldable pub lookup_installation : ℕ → String → String → Exec AppClient ℕ
  lookup_installation now repo app_id = do
    jwt ← from_signer (app_jwt app_id now)
    reply ← call (installation_call jwt repo)
    id ← decoded (decode_id reply.body)
    choose (ltb 0 id) (store_installation repo id) (raise malformed)

  unfoldable pub installation_id : ℕ → String → Exec AppClient ℕ
  installation_id now repo c =
      from_option (cached repo c.installs) (lookup_installation now repo c.app_id) (λ id. pure id) c

  abbrev pub token_call : String → String → ℕ → List (String × String) → Call
  token_call jwt repo install perms = record {
    method = "POST";
    url = github_base <> ("/app/installations/" <> (decimal install <> "/access_tokens"));
    bearer = jwt;
    payload = token_body (record { repository = repository_name repo; permissions = perms });
  }

  abbrev pub store_token : String → String × ℕ → Exec AppClient String
  store_token cache_key (value, expires_at) c = (
    ok value,
    record c {
      token_pool = (cache_key, record { value = value; expires = expires_at - 120 }) ∷ c.token_pool;
    },
  )

  unfoldable pub mint : ℕ → String → String → List (String × String) → Exec AppClient String
  mint now repo cache_key perms = do
    install ← installation_id now repo
    jwt ← (λ (c : AppClient). (app_jwt c.app_id now, c))
    reply ← call (token_call jwt repo install perms)
    out ← decoded (decode_token reply.body)
    choose (out.0 == "") (raise malformed) (store_token cache_key out)

  -- `t, ok := c.tokenPool[cacheKey]; ok && time.Now().Before(t.expires)`.
  abbrev pub fresh : ℕ → Option CachedToken → Option String
  fresh now none = none
  fresh now (some t) = if ltb now t.expires then some t.value else none

  unfoldable pub token : ℕ → String → String → List (String × String) → Exec AppClient String
  token now repo cache_key perms c =
      from_option (fresh now (cached cache_key c.token_pool)) (mint now repo cache_key perms)
        (λ value. pure value) c

  abbrev pub clone_key : String → String
  clone_key repo = "clone:" <> repo

  abbrev pub status_key : String → String
  status_key repo = "status:" <> repo

  unfoldable pub app_clone_token : ℕ → String → Exec AppClient String
  app_clone_token now repo = token now repo (clone_key repo) clone_perms

  unfoldable pub app_set_status :
      ℕ → String → String → String → List ℕ → String → Exec AppClient (Unit {0})
  app_set_status now repo sha state description target_url = do
    t ← token now repo (status_key repo) control_plane_perms
    in_network (post_status t repo sha state description target_url)
