-- ===== src/Github/Choice.antt =====
-- internal/github: the three clients, and the choice between them. Reading a file and parsing a
-- private key are parameters.
use grid_runner.Prelude.{
  ℕ, ◌≡◌, refl, ap, ◌∙◌, ◌⊎◌, inl, inr, String, not, ◌&&◌, List, ◌==◌, eq_iff, Bool-cases,
  if◌then◌else◌,
}
use grid_runner.Fallible.{Result, ok, err, malformed}
use grid_runner.Exec.{Exec, pure}
use grid_runner.Github.Client.{post_status}
use grid_runner.Github.App.{Signer, AppClient, in_network, app_clone_token, app_set_status}

-- `NoopClient`, `HTTPClient` with its token, and `AppClient` with its id and key.
pub data Client : Type 0 where
  noop_client : Client
  http_client : String → Client
  app_client : String → String → Client

pub record Options : Type 0 where
  pub app_id : String
  pub private_key_pem : String
  pub private_key_path : String
  pub token : String

abbrev checked_app : String → String → Result (Unit {0}) → Result Client
checked_app app_id pem (err e) = err e
checked_app app_id pem (ok _) = if app_id == "" then err malformed else ok (app_client app_id pem)

module _ (read : String → Result String) (parse_private_key : String → Result (Unit {0})) where
  unfoldable pub new_app : String → String → Result Client
  new_app app_id pem = checked_app app_id pem (parse_private_key pem)

  unfoldable pub key_pem : Options → Result String
  key_pem o =
      if o.private_key_pem == "" && not (o.private_key_path == "")
      then read o.private_key_path
      else ok o.private_key_pem

  abbrev named_app : Result Client → Result (Client × String)
  named_app (ok c) = ok (c, "github-app")
  named_app (err e) = err e

  abbrev pub choose_client : Options → Result String → Result (Client × String)
  choose_client o (err e) = err e
  choose_client o (ok pem) =
      if not (o.app_id == "") && not (pem == "")
      then named_app (new_app o.app_id pem)
      else if not (o.token == "")
      then ok (http_client o.token, "personal-access-token")
      else ok (noop_client, "disabled")

  unfoldable pub configure : Options → Result (Client × String)
  configure o = choose_client o (key_pem o)

  -- A personal access token is chosen only when no App id or no key of an App is configured.
  pub configure-http_client :
      (o : Options) (t mode : String)
      → configure o ≡ ok (http_client t, mode)
      → (o.app_id ≡ "") ⊎ (key_pem o ≡ ok "")
  unfolding configure new_app
  configure-http_client o t mode = go (key_pem o) refl
    where
      app :
          (pem : String) (r : Result (Unit {0}))
          → named_app (checked_app o.app_id pem r) ≡ ok (http_client t, mode)
          → ⊥
      app pem (err e) got = absurd (cc)
      app pem (ok _) got = elim (Bool-cases (o.app_id == "")) [
        | inl empty ↦
            absurd (let bad : err malformed ≡ ok (http_client t, mode) = rw empty at got in cc)
        | inr filled ↦ absurd (
            let bad : ok (app_client o.app_id pem, "github-app") ≡ ok (http_client t, mode) =
              rw filled at got in
            cc)
      ]

      go :
          (r : Result String)
          → key_pem o ≡ r
          → choose_client o r ≡ ok (http_client t, mode)
          → (o.app_id ≡ "") ⊎ (key_pem o ≡ ok "")
      go (err e) same got = absurd (cc)
      go (ok pem) same got = elim (Bool-cases (o.app_id == "")) [
        | inl empty ↦ inl ((eq_iff o.app_id "").0 empty)
        | inr filled ↦ elim (Bool-cases (pem == "")) [
          | inl bare ↦ inr (same ∙ ap ok ((eq_iff pem "").0 bare))
          | inr keyed ↦ absurd (app pem (parse_private_key pem) (rw keyed at (rw filled at got)))
        ]
      ]

module _ (S : Signer) where
  -- `CloneToken` and `SetStatus` of each client; only the App has a state, and the network is in it.
  unfoldable pub clone_token : Client → ℕ → String → Exec AppClient String
  clone_token noop_client now repo = pure ""
  clone_token (http_client token) now repo = pure ""
  clone_token (app_client id pem) now repo = app_clone_token S now repo

  unfoldable pub set_status :
      Client → ℕ → String → String → String → List ℕ → String → Exec AppClient (Unit {0})
  set_status noop_client now repo sha state description target_url = pure tt
  set_status (http_client token) now repo sha state description target_url =
      in_network (post_status token repo sha state description target_url)
  set_status (app_client id pem) now repo sha state description target_url =
      app_set_status S now repo sha state description target_url
