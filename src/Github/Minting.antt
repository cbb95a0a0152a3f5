-- ===== src/Github/Minting.antt =====
-- internal/github/app.go: what a new token does to the pool.
use mathlib.Core.Path.{subst}
use grid_runner.Prelude.{
  ℕ, ◌-◌, ◌≡◌, refl, inl, inr, String, some, List, ltb, ◌==◌, eq_iff, Bool-cases, Option-cases,
}
use grid_runner.Fallible.{ok, err, malformed}
use grid_runner.Exec.{pure, raise, from_option}
use grid_runner.Github.App.{
  Signer, CachedToken, AppClient, cached, decoded, from_signer, app_jwt, call, installation_call,
  lookup_installation, store_installation, installation_id, token_call, store_token, mint, fresh,
  token,
}
use grid_runner.Github.Tokens.{
  IsKeyOf, IsGranted, IsSourced, HasSources, Grows-refl, Yields, Yields-bind, Yields-still,
  Yields-decoded, Yields-choose, Yields-call, Nothing, Answered, IsInstalled, Installed,
  Yields-keep,
}

module _ (S : Signer) where
  open S use {decode_id, decode_token}

  Yields-store_installation :
      (repo : String) (install : ℕ) (s : AppClient)
      → Installed S repo install s
      → Yields S (Installed S repo) (store_installation S repo install) s
  unfolding cached
  Yields-store_installation repo install s named = record {
    grows = record { log = λ x h. h; pool = λ h. (h.0, installs_after h) };
    value = λ id e. let same : install ≡ id = cc in rw (← same) named;
  }
    where
      installs_after :
          HasSources S s
          → (k : String) (id : ℕ)
          → cached k (store_installation S repo install s).1.installs ≡ some id
          → IsInstalled S s.network.log k id
      installs_after h k id found = elim (Bool-cases (repo == k)) [
        | inl hit ↦
            let this : repo ≡ k = (eq_iff repo k).0 hit in
            let found' : some install ≡ some id = rw hit at found in
            let same : install ≡ id = cc in
            subst (λ l. IsInstalled S s.network.log l id) this
              (subst (λ x. IsInstalled S s.network.log repo x) same named)
        | inr miss ↦ h.1 k id (rw miss at found)
      ]

  Yields-lookup_installation :
      (now : ℕ) (repo app_id : String) (s : AppClient)
      → Yields S (Installed S repo) (lookup_installation S now repo app_id) s
  unfolding lookup_installation raise
  Yields-lookup_installation now repo app_id s =
      Yields-bind S (Nothing S) _ (from_signer S (app_jwt S app_id now)) _ s
        (Yields-still S (Nothing S) (app_jwt S app_id now) s (λ a e. tt))
        (λ jwt e _.
          Yields-bind S (Answered S (installation_call S jwt repo)) _
            (call S (installation_call S jwt repo)) _ _
            (Yields-call S (installation_call S jwt repo) _)
            (λ reply e logged.
              Yields-bind S (Installed S repo) _ (decoded (decode_id reply.body)) _ _
                (Yields-decoded S (Installed S repo) (decode_id reply.body) _
                  (λ id found. (jwt, reply, logged, found)))
                (λ id e named.
                  Yields-choose S (Installed S repo) (ltb 0 id) _ _ _
                    (λ _. Yields-store_installation repo id _ named)
                    (λ _. Yields-still S _ (err malformed) _ (λ a e. absurd (cc))))))

  Yields-installation_id :
      (now : ℕ) (repo : String) (s : AppClient)
      → HasSources S s
      → Yields S (Installed S repo) (installation_id S now repo) s
  unfolding installation_id from_option pure
  Yields-installation_id now repo s sourced = elim (Option-cases (cached repo s.installs)) [
    | inr (id, hit) ↦ record {
      grows = rw hit (Grows-refl S s);
      value = λ a e.
          let gives : ok id ≡ ok a = rw hit at e in
          let same : id ≡ a = cc in rw (hit, ← same) (sourced.1 repo id hit);
    }
    | inl miss ↦
        let found = Yields-lookup_installation now repo s.app_id s in
        record {
          grows = rw miss found.grows;
          value = λ a e. rw miss (found.value a (rw miss at e));
        }
  ]

  -- The token that is minted, as the reply of GitHub.
  abbrev pub Granted : String → List (String × String) → String × ℕ → AppClient → Type 0
  Granted repo perms out s = IsGranted S s.network.log repo perms out.0 out.1

  abbrev pub GrantedNow : String → List (String × String) → String → AppClient → Type 0
  GrantedNow repo perms value s =
      (expires_at : ℕ) × IsGranted S s.network.log repo perms value expires_at

  Yields-store_token :
      (repo key : String) (perms : List (String × String)) (out : String × ℕ) (s : AppClient)
      → IsKeyOf S key repo perms
      → Granted repo perms out s
      → Yields S (GrantedNow repo perms) (store_token S key out) s
  unfolding cached
  Yields-store_token repo key perms (value, expires_at) s is_key granted = record {
    grows = record { log = λ x h. h; pool = λ h. (pool_after h, h.1) };
    value = λ v e. let same : value ≡ v = cc in rw (← same) (expires_at, granted);
  }
    where
      pool_after :
          HasSources S s
          → (k : String) (t : CachedToken)
          → cached k (store_token S key (value, expires_at) s).1.token_pool ≡ some t
          → IsSourced S s.network.log k t
      pool_after h k t found = elim (Bool-cases (key == k)) [
        | inl hit ↦
            let this : key ≡ k = (eq_iff key k).0 hit in
            let stored : CachedToken = record { value = value; expires = expires_at - 120 } in
            let found' : some stored ≡ some t = rw hit at found in
            let same : stored ≡ t = cc in
            subst (λ l. IsSourced S s.network.log l t) this
              (subst (λ x. IsSourced S s.network.log key x) same
                (repo, perms, expires_at, is_key, granted, refl))
        | inr miss ↦ h.0 k t (rw miss at found)
      ]

  pub Yields-mint :
      (now : ℕ) (repo key : String) (perms : List (String × String)) (s : AppClient)
      → IsKeyOf S key repo perms
      → HasSources S s
      → Yields S (GrantedNow repo perms) (mint S now repo key perms) s
  unfolding mint raise
  Yields-mint now repo key perms s is_key sourced =
      Yields-bind S (Installed S repo) _ (installation_id S now repo) _ s
        (Yields-installation_id now repo s sourced)
        (λ install e named.
          Yields-bind S (Nothing S) _ (λ c. (app_jwt S c.app_id now, c)) _ _
            (record { grows = Grows-refl S _; value = λ a e. tt })
            (λ jwt e _.
              Yields-bind S _ _ (call S _) _ _
                (Yields-keep S (Answered S (token_call S jwt repo install perms)) _ _ repo install
                  named (Yields-call S (token_call S jwt repo install perms) _))
                (λ reply e (logged, still_named).
                  Yields-bind S (Granted repo perms) _ (decoded (decode_token reply.body)) _ _
                    (Yields-decoded S (Granted repo perms) (decode_token reply.body) _
                      (λ out found. (jwt, install, reply, logged, found, still_named)))
                    (λ out e granted.
                      Yields-choose S (GrantedNow repo perms) (out.0 == "") _ _ _
                        (λ _. Yields-still S _ (err malformed) _ (λ a e. absurd (cc)))
                        (λ _. Yields-store_token repo key perms out _ is_key granted)))))

  pub Yields-token :
      (now : ℕ) (repo key : String) (perms : List (String × String)) (s : AppClient)
      → IsKeyOf S key repo perms
      → HasSources S s
      → Yields S (λ (v : String) (c : AppClient). Unit {0}) (token S now repo key perms) s
  unfolding token from_option pure
  Yields-token now repo key perms s is_key sourced =
      elim (Option-cases (fresh S now (cached key s.token_pool))) [
        | inr (value, hit) ↦ record { grows = rw hit (Grows-refl S s); value = λ a e. tt }
        | inl miss ↦ record {
          grows = rw miss (Yields-mint now repo key perms s is_key sourced).grows;
          value = λ a e. tt;
        }
      ]
