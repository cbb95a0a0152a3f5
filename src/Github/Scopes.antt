-- ===== src/Github/Scopes.antt =====
-- internal/github/app.go: which token a caller of the App is given.
use Prim.Native.String.{◌++◌ as ◌<>◌, slice}
use text.Mathlib.TextLemmas.{append_assoc, append_cancel_left}
use text.Mathlib.TextPositions.{slice-append_left}
use grid_runner.Prelude.{
  ℕ, ◌+◌, ◌<◌, ◌≡◌, refl, sym, ap, ◌∙◌, ◌⊎◌, inl, inr, String, true, Option, none, some, List,
  arith, ltb, ltb→lt, ◌==◌, eq_iff, Bool-cases, Option-cases,
}
use grid_runner.Fallible.{Result, ok, err}
use grid_runner.Exec.{pure, from_option, ◌>>=◌}
use grid_runner.Github.Client.{Reply, Network, Call, send, post_status, status_call}
use grid_runner.Github.App.{
  Signer, CachedToken, AppClient, clone_perms, control_plane_perms, cached, in_network, fresh,
  token, clone_key, status_key, app_clone_token, app_set_status,
}
use grid_runner.Github.Tokens.{
  IsKeyOf, IsGranted, HasSources, Grows, Yields, Yields-bind, Yields-send, Nothing, Answered,
}
use grid_runner.Github.Minting.{Yields-mint, Yields-token}

module _ (S : Signer) where
  open S use {decode_token}

  -- The value was granted for `repo` and `perms`, and it is valid for two minutes more, or it is new.
  abbrev pub IsSourcedNow :
      ℕ → String → String → List (String × String) → AppClient → String → AppClient → Type 0
  IsSourcedNow now key repo perms s value t =
      (expires_at : ℕ) × IsGranted S t.network.log repo perms value expires_at
      × ((now + 120 < expires_at) ⊎ (fresh S now (cached key s.token_pool) ≡ none))

  clone_status_apart : (repo repo' : String) → clone_key S repo ≡ status_key S repo' → ⊥
  clone_status_apart repo repo' e =
      let left : slice ("clone:" <> repo) 0 6 ≡ "clone:" = slice-append_left "clone:" repo in
      let right : slice ("status" <> (":" <> repo')) 0 6 ≡ "status" =
        slice-append_left "status" (":" <> repo') in
      let same : "status:" <> repo' ≡ "status" <> (":" <> repo') =
        append_assoc "status" ":" repo' in
      let bad : ("clone:" == "status") ≡ true =
        (eq_iff "clone:" "status").1 (sym left ∙ ap (λ x. slice x 0 6) (e ∙ same) ∙ right) in
      absurd (cc)

  IsKeyOf-unique :
      (key repo repo' : String) (perms perms' : List (String × String))
      → IsKeyOf S key repo perms
      → IsKeyOf S key repo' perms'
      → (repo' ≡ repo) × (perms' ≡ perms)
  IsKeyOf-unique key repo repo' perms perms' (inl (k, p)) (inl (k', p')) =
      (append_cancel_left "clone:" repo' repo (sym k' ∙ k), p' ∙ sym p)
  IsKeyOf-unique key repo repo' perms perms' (inr (k, p)) (inr (k', p')) =
      (append_cancel_left "status:" repo' repo (sym k' ∙ k), p' ∙ sym p)
  IsKeyOf-unique key repo repo' perms perms' (inl (k, p)) (inr (k', p')) =
      absurd (clone_status_apart repo repo' (sym k ∙ k'))
  IsKeyOf-unique key repo repo' perms perms' (inr (k, p)) (inl (k', p')) =
      absurd (clone_status_apart repo' repo (sym k' ∙ k))

  fresh-some :
      (now : ℕ) (o : Option CachedToken) (value : String)
      → fresh S now o ≡ some value
      → (t : CachedToken) × (o ≡ some t) × (t.value ≡ value) × (now < t.expires)
  fresh-some now none value e = absurd (cc)
  fresh-some now (some t) value e = elim (Bool-cases (ltb now t.expires)) [
    | inl before ↦
        let same : some t.value ≡ some value = rw before at e in
        (t, refl, cc, ltb→lt now t.expires before)
    | inr late ↦ absurd (let bad : none ≡ some value = rw late at e in cc)
  ]

  token-IsSourcedNow :
      (now : ℕ) (repo key : String) (perms : List (String × String)) (s : AppClient)
      (value : String)
      → IsKeyOf S key repo perms
      → HasSources S s
      → (token S now repo key perms s).0 ≡ ok value
      → IsSourcedNow now key repo perms s value (token S now repo key perms s).1
  unfolding token from_option pure
  token-IsSourcedNow now repo key perms s value is_key sourced got =
      elim (Option-cases (fresh S now (cached key s.token_pool))) [
        | inr (v, hit) ↦
            let (t, found, is_v, before) = fresh-some now (cached key s.token_pool) v hit in
            let (
              repo',
              perms',
              expires_at,
              is_key',
              (jwt, install, reply, logged, decodes, named),
              expires,
            ) =
              sourced.0 key t found in
            let (r, p) = IsKeyOf-unique key repo repo' perms perms' is_key is_key' in
            let gives : ok v ≡ ok value = rw hit at got in
            let is_value : t.value ≡ value = cc in
            rw hit (
              expires_at,
              (
                jwt,
                install,
                reply,
                rw (← r) (rw (← p) logged),
                rw (← is_value) decodes,
                rw (← r) named,
              ),
              inl (omega arith),
            )
        | inl miss ↦
            let minted = Yields-mint S now repo key perms s is_key sourced in
            let (expires_at, granted) = minted.value value (rw miss at got) in
            rw miss (expires_at, granted, inr refl)
      ]

  Yields-post :
      (t repo sha state target_url : String) (description : List ℕ) (s : AppClient)
      → Yields S (Nothing S) (in_network (post_status t repo sha state description target_url)) s
  unfolding post_status ◌>>=◌
  Yields-post t repo sha state target_url description s =
      let c : Call = status_call t repo sha state description target_url in
      let sent : Yields S (Answered S c) (in_network (send c)) s = Yields-send S c s in
      go (send c s.network).0 (send c s.network).1 refl sent.grows
    where
      go :
          (r : Result Reply) (n : Network)
          → send (status_call t repo sha state description target_url) s.network ≡ (r, n)
          → Grows S s (record s {
            network = (send (status_call t repo sha state description target_url) s.network).1;
          })
          → Yields S
              (Nothing S)
              (in_network (post_status t repo sha state description target_url))
              s
      go (ok reply) n e sent = record { grows = rw e (rw e at sent); value = λ a e. tt }
      go (err x) n e sent = record { grows = rw e (rw e at sent); value = λ a e. tt }

  -- A token that a runner is given to clone `repo` was granted by GitHub for the one repository of
  -- that name in the installation that GitHub had named for `repo`, with leave to read its contents and no more, whenever this holds of the tokens in the pool; and
  -- it is valid for two more minutes, or it was asked for by this call.
  pub app_clone_token-IsGranted :
      (now : ℕ) (repo value : String) (s : AppClient)
      → HasSources S s
      → (app_clone_token S now repo s).0 ≡ ok value
      → IsSourcedNow now
          (clone_key S repo)
          repo
          clone_perms
          s
          value
          (app_clone_token S now repo s).1
  unfolding app_clone_token
  app_clone_token-IsGranted now repo value s sourced got =
      token-IsSourcedNow now repo (clone_key S repo) clone_perms s value (inl (refl, refl)) sourced
        got

  -- Every installation of the cache is one that GitHub named when it was asked about the repository,
  -- by owner and name, that is its key; every token of the pool was granted for the repository and
  -- the permissions that its key names, by the installation that GitHub named for that repository,
  -- and expires there two minutes early. No call of the client changes that, whatever the network
  -- does.
  pub app_client-HasSources :
      (now : ℕ) (repo sha state target_url : String) (description : List ℕ) (s : AppClient)
      → HasSources S s
      → HasSources S (app_clone_token S now repo s).1
        × HasSources S (app_set_status S now repo sha state description target_url s).1
  unfolding app_clone_token app_set_status post_status
  app_client-HasSources now repo sha state target_url description s sourced = (
    (Yields-token S now repo (clone_key S repo) clone_perms s (inl (refl, refl)) sourced).grows.pool
        sourced,
    (Yields-bind S (Nothing S) (Nothing S)
          (token S now repo (status_key S repo) control_plane_perms) _ s
          (Yields-token S now repo (status_key S repo) control_plane_perms s (inr (refl, refl))
            sourced)
          (λ t e _. Yields-post t repo sha state target_url description _)).grows.pool
        sourced,
  )
