-- ===== src/Github/Tokens.antt =====
-- internal/github/app.go: where the tokens of the pool come from, and which a runner is given.
use Prim.Native.String.{◌++◌ as ◌<>◌}
use mathlib.Core.List.{append-nil}
use grid_runner.Prelude.{
  ℕ, zero, suc, ◌-◌, ◌≡◌, refl, sym, ap, ◌∙◌, ◌⊎◌, inl, inr, String, Bool, true, false, Option,
  none, some, List, [], ◌∷◌, ◌++◌,
}
use grid_runner.Fallible.{Result, ok, err, malformed}
use grid_runner.Exec.{Exec, pure, raise, choose, ◌>>=◌}
use grid_runner.Github.Client.{
  no_body, token_body, Reply, Answer, unreachable, replies, Network, Call, send, checked,
  check_response,
}
use grid_runner.Github.Retries.{exchanges, Ends, send-Ends}
use grid_runner.Github.App.{
  repository_name, Signer, CachedToken, AppClient, clone_perms, control_plane_perms, cached,
  in_network, decoded, call, clone_key, status_key,
}

abbrev pub InLog : Call × Answer → List (Call × Answer) → Type 0
InLog x [] = ⊥
InLog x (y ∷ ys) = (y ≡ x) ⊎ InLog x ys

InLog-left : (x : Call × Answer) (xs ys : List (Call × Answer)) → InLog x xs → InLog x (xs ++ ys)
InLog-left x [] ys h = absurd h
InLog-left x (z ∷ xs) ys (inl e) = inl e
InLog-left x (z ∷ xs) ys (inr h) = inr (InLog-left x xs ys h)

InLog-right : (x : Call × Answer) (xs ys : List (Call × Answer)) → InLog x ys → InLog x (xs ++ ys)
InLog-right x [] ys h = h
InLog-right x (z ∷ xs) ys h = inr (InLog-right x xs ys h)

-- A result without an error is the last answer.
Ends-InLog :
    (left : ℕ) (c : Call) (made : List Answer) (reply : Reply)
    → Ends left made (ok reply)
    → InLog (c, replies reply) (exchanges c made)
Ends-InLog zero c [] reply h = absurd (cc)
Ends-InLog zero c (a ∷ made) reply h = absurd h
Ends-InLog (suc left) c [] reply h = absurd (cc)
Ends-InLog (suc left) c (unreachable ∷ made) reply (inl (h, only)) = absurd h
Ends-InLog (suc left) c (replies x ∷ made) reply (inl ((final, e), only)) =
    let same : x ≡ reply = cc in inl (ap (λ y. (c, replies y)) same)
Ends-InLog (suc left) c (a ∷ made) reply (inr (again, ends)) =
    inr (Ends-InLog left c made reply ends)

module _ (S : Signer) where
  open S use {decode_id, decode_token}

  -- The key names the repository and the permissions.
  abbrev pub IsKeyOf : String → String → List (String × String) → Type 0
  IsKeyOf key repo perms =
      ((key ≡ clone_key S repo) × (perms ≡ clone_perms))
      ⊎ ((key ≡ status_key S repo) × (perms ≡ control_plane_perms))

  -- GitHub named the installation in its answer about this repository, by owner and name.
  abbrev pub IsInstalled : List (Call × Answer) → String → ℕ → Type 0
  IsInstalled log repo install =
      (jwt : String) × (reply : Reply) × InLog
        (
          record {
            method = "GET";
            url = "https://api.github.com" <> ("/repos/" <> (repo <> "/installation"));
            bearer = jwt;
            payload = no_body;
          },
          replies reply,
        )
        log
      × (decode_id reply.body ≡ some install)

  -- GitHub gave the token, with that expiry, when it was asked for one of the repository of that name in
  -- the installation that it had named for this repository, and with these permissions.
  abbrev pub IsGranted :
      List (Call × Answer) → String → List (String × String) → String → ℕ → Type 0
  IsGranted log repo perms value expires_at =
      (jwt : String) × (install : ℕ) × (reply : Reply) × InLog
        (
          record {
            method = "POST";
            url =
                "https://api.github.com"
                <> ("/app/installations/" <> (S.decimal install <> "/access_tokens"));
            bearer = jwt;
            payload =
                token_body (record { repository = repository_name repo; permissions = perms });
          },
          replies reply,
        )
        log
      × (decode_token reply.body ≡ some (value, expires_at))
      × IsInstalled log repo install

  abbrev pub IsSourced : List (Call × Answer) → String → CachedToken → Type 0
  IsSourced log key t =
      (repo : String) × (perms : List (String × String)) × (expires_at : ℕ) × IsKeyOf key repo perms
      × IsGranted log repo perms t.value expires_at
      × (t.expires ≡ expires_at - 120)

  -- Every token of the pool was granted for what its key says, and every installation of the cache was
  -- named for the repository that is its key.
  abbrev pub HasSources : AppClient → Type 0
  HasSources c =
      ((key : String) (t : CachedToken)
        → cached key c.token_pool ≡ some t
        → IsSourced c.network.log key t)
      × ((repo : String) (install : ℕ)
          → cached repo c.installs ≡ some install
          → IsInstalled c.network.log repo install)

  pub record Grows (s t : AppClient) : Type 0 where
    pub log : (x : Call × Answer) → InLog x s.network.log → InLog x t.network.log
    pub pool : HasSources s → HasSources t

  pub Grows-refl : (s : AppClient) → Grows s s
  Grows-refl s = record { log = λ x h. h; pool = λ h. h }

  Grows-trans : (s t u : AppClient) → Grows s t → Grows t u → Grows s u
  Grows-trans s t u p q = record { log = λ x h. q.log x (p.log x h); pool = λ h. q.pool (p.pool h) }

  -- A request keeps the sources, and what it gives satisfies `P`.
  pub record Yields {A : Type 0} (P : A → AppClient → Type 0) (m : Exec AppClient A) (s : AppClient)
      : Type 0 where
    pub grows : Grows s (m s).1
    pub value : (a : A) → (m s).0 ≡ ok a → P a (m s).1

  pub Yields-bind :
      {A B : Type 0} (P : A → AppClient → Type 0) (Q : B → AppClient → Type 0)
      (m : Exec AppClient A) (f : A → Exec AppClient B) (s : AppClient)
      → Yields P m s
      → ((a : A) → (m s).0 ≡ ok a → P a (m s).1 → Yields Q (f a) (m s).1)
      → Yields Q (m >>= f) s
  unfolding ◌>>=◌
  Yields-bind P Q m f s h k = go (m s).0 (m s).1 refl
    where
      go : (r : Result _) (t : AppClient) → m s ≡ (r, t) → Yields Q (m >>= f) s
      go (ok a) t e =
          let first : (m s).0 ≡ ok a = ap (λ p. p.0) e in
          let to_t : Grows s t = rw e at h.grows in
          let there : Yields Q (f a) t = rw e at (k a first (h.value a first)) in
          record {
            grows = rw e (Grows-trans s t (f a t).1 to_t there.grows);
            value = λ b done_. rw e (there.value b (rw e at done_));
          }
      go (err x) t e = record {
        grows = rw e (rw e at h.grows);
        value = λ b done_. absurd (let bad : err x ≡ ok b = rw e at done_ in cc);
      }

  abbrev pub Nothing : {A : Type 0} → A → AppClient → Type 0
  Nothing a c = Unit {0}

  -- A step that leaves the client alone.
  pub Yields-still :
      {A : Type 0} (P : A → AppClient → Type 0) (r : Result A) (s : AppClient)
      → ((a : A) → r ≡ ok a → P a s)
      → Yields P (λ c. (r, c)) s
  Yields-still P r s h = record { grows = Grows-refl s; value = h }

  grown_log :
      (s : AppClient) (n : Network) (more : List (Call × Answer))
      → n.log ≡ s.network.log ++ more
      → Grows s (record s { network = n })
  grown_log s n more e =
      let keep : (x : Call × Answer) → InLog x s.network.log → InLog x n.log =
        λ x h. rw e (InLog-left x s.network.log more h) in
      record {
        log = keep;
        pool = λ h. (
          λ key t found.
              let (
                repo,
                perms,
                expires_at,
                is_key,
                (jwt, install, reply, logged, value, (jwt', reply', asked, named)),
                expires,
              ) =
                h.0 key t found in
              (
                repo,
                perms,
                expires_at,
                is_key,
                (jwt, install, reply, keep _ logged, value, (jwt', reply', keep _ asked, named)),
                expires,
              ),
          λ repo install found.
              let (jwt, reply, asked, named) = h.1 repo install found in
              (jwt, reply, keep _ asked, named),
        );
      }

  abbrev pub Answered : Call → Reply → AppClient → Type 0
  Answered c reply s = InLog (c, replies reply) s.network.log

  pub Yields-send : (c : Call) (s : AppClient) → Yields (Answered c) (in_network (send c)) s
  Yields-send c s = elim (send-Ends c s.network) [
    | inl (bad, failed, same) ↦ record {
      grows = grown_log s (send c s.network).1 [] (same ∙ sym (append-nil s.network.log));
      value = λ reply good. absurd (let no : err malformed ≡ ok reply = sym failed ∙ good in cc);
    }
    | inr (fine, a, made, grown, few, ends) ↦ record {
      grows = grown_log s (send c s.network).1 (exchanges c (a ∷ made)) grown;
      value = λ reply good. rw grown (
          InLog-right (c, replies reply) s.network.log (exchanges c (a ∷ made))
            (Ends-InLog 3 c (a ∷ made) reply (rw good at ends)));
    }
  ]

  pub Yields-call : (c : Call) (s : AppClient) → Yields (Answered c) (call S c) s
  unfolding call pure
  Yields-call c s =
      Yields-bind (Answered c) (Answered c) (in_network (send c)) _ s (Yields-send c s)
        (λ reply good logged.
          Yields-bind Nothing (Answered c) (in_network (checked reply)) _ _
            (Yields-still Nothing (check_response reply) _ (λ a e. tt))
            (λ u fine _.
              Yields-still (Answered c) (ok reply) _
                (λ x e. let same : reply ≡ x = cc in rw (← same) logged)))

  -- An installation that was named before a step was named after it.
  abbrev pub Installed : String → ℕ → AppClient → Type 0
  Installed repo install c = IsInstalled c.network.log repo install

  pub Yields-keep :
      {A : Type 0} (P : A → AppClient → Type 0) (m : Exec AppClient A) (s : AppClient)
      (repo : String) (install : ℕ)
      → Installed repo install s
      → Yields P m s
      → Yields (λ a c. P a c × Installed repo install c) m s
  Yields-keep P m s repo install (jwt, reply, asked, named) h = record {
    grows = h.grows;
    value = λ a e. (h.value a e, (jwt, reply, h.grows.log _ asked, named));
  }

  pub Yields-any :
      {A : Type 0} (P : A → AppClient → Type 0) (m : Exec AppClient A) (s : AppClient)
      → Yields P m s
      → Yields Nothing m s
  Yields-any P m s h = record { grows = h.grows; value = λ a e. tt }

  pub Yields-decoded :
      {A : Type 0} (P : A → AppClient → Type 0) (o : Option A) (s : AppClient)
      → ((a : A) → o ≡ some a → P a s)
      → Yields P (decoded o) s
  unfolding raise pure
  Yields-decoded P none s h = Yields-still P (err malformed) s (λ a e. absurd (cc))
  Yields-decoded P (some a) s h =
      Yields-still P (ok a) s (λ b e. let same : a ≡ b = cc in h b (ap some same))

  pub Yields-choose :
      {A : Type 0} (P : A → AppClient → Type 0) (b : Bool) (m n : Exec AppClient A) (s : AppClient)
      → (b ≡ true → Yields P m s)
      → (b ≡ false → Yields P n s)
      → Yields P (choose b m n) s
  unfolding choose
  Yields-choose P true m n s h k = h refl
  Yields-choose P false m n s h k = k refl
