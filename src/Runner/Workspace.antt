-- ===== src/Runner/Workspace.antt =====
-- internal/runner/workspace.go: the checkout of one commit.
pub mod Redaction
pub mod Cleanup
use Prim.Native.String.{◌++◌ as ◌<>◌}
use Prim.Native.Char.{Char, code}
use grid_runner.Prelude.{
  ℕ, zero, suc, ◌-◌, String, Bool, true, false, ◌&&◌, ◌||◌, Option, none, some, List, [], ◌∷◌, ◌++◌,
  leb, ◌==◌, if◌then◌else◌,
}
use Prim.Native.String.{len}
use grid_runner.Runner.{
  Outcome, gives, fails, Action, made_dir, ran, removed_dir, Trace, Work, Outside,
}

pub record Checkout : Type 0 where
  pub root : String
  pub job_id : String
  pub clone_url : String
  pub commit_sha : String
  pub branch : String
  pub token : String

abbrev pub same_char : Char → Char → Bool
same_char c d = leb (code c) (code d) && leb (code d) (code c)

unfoldable pub has_prefix : String → String → Bool
has_prefix String.[] s = true
has_prefix (String.◌∷◌ c p) String.[] = false
has_prefix (String.◌∷◌ c p) (String.◌∷◌ d s) = same_char c d && has_prefix p s

-- `strings.ReplaceAll(s, token, "***")`, of which `skip` characters belong to the last match.
unfoldable pub replace_from : String → ℕ → String → String
replace_from token skip String.[] = ""
replace_from token (suc skip) (String.◌∷◌ c s) = replace_from token skip s
replace_from token zero (String.◌∷◌ c s) =
    let matched = replace_from token (len token - 1) s in
    let rest = replace_from token zero s in
    if has_prefix token (String.◌∷◌ c s)
    then String.◌∷◌ "*" (String.◌∷◌ "*" (String.◌∷◌ "*" matched))
    else String.◌∷◌ c rest

unfoldable pub redact : String → String → String
redact s token = if token == "" then s else replace_from token zero s

unfoldable pub git : List String → List String → List String
git auth args = "git" ∷ (auth ++ args)

-- `strings.Join(s, " ")`.
unfoldable pub join : List String → String
join [] = ""
join (s ∷ []) = s
join (s ∷ t ∷ rest) = s <> (" " <> join (t ∷ rest))

-- `fmt.Errorf("%s: %w: %s", what, err, out)`.
abbrev pub run_error : String → String → String → String
run_error what e out = what <> (": " <> (e <> (": " <> out)))

abbrev pub init_args : List String
init_args = "git" ∷ "init" ∷ "-q" ∷ []

abbrev pub remote_args : Checkout → List String
remote_args c = "git" ∷ "remote" ∷ "add" ∷ "origin" ∷ c.clone_url ∷ []

abbrev pub give_up : String → String → Work (Outcome String)
give_up dir text t = (fails text, removed_dir dir ∷ t)

module _ (O : Outside) where
  abbrev pub workspace_dir : Checkout → String
  workspace_dir c = O.join_path c.root ("forgerun-" <> c.job_id)

  unfoldable pub auth_args : String → List String
  auth_args token =
      if token == ""
      then []
      else "-c"
        ∷ ("http.extraheader=AUTHORIZATION: basic " <> O.base64 ("x-access-token:" <> token))
        ∷ []

  abbrev pub fetch_sha : Checkout → List String
  fetch_sha c =
      git (auth_args c.token) ("fetch" ∷ "-q" ∷ "--depth" ∷ "1" ∷ "origin" ∷ c.commit_sha ∷ [])

  abbrev pub fetch_branch : Checkout → List String
  fetch_branch c =
      git (auth_args c.token) ("fetch" ∷ "-q" ∷ "--depth" ∷ "50" ∷ "origin" ∷ c.branch ∷ [])

  abbrev pub checkout_sha : Checkout → List String
  checkout_sha c = git (auth_args c.token) ("checkout" ∷ "-q" ∷ c.commit_sha ∷ [])

  -- A command, and what follows its success or its error and output.
  abbrev pub branch_on :
      {A : Type 0} → Option String × String → Work A → (String → String → Work A) → Work A
  branch_on (none, out) onward failed = onward
  branch_on (some e, out) onward failed = failed e out

  abbrev pub run_then :
      {A : Type 0} → String → List String → Work A → (String → String → Work A) → Work A
  run_then dir args onward failed t = branch_on (O.run t dir args) onward failed (ran dir args ∷ t)

  unfoldable pub check_out : Checkout → String → Work (Outcome String)
  check_out c dir =
      run_then dir (checkout_sha c) (λ t. (gives dir, t))
        (λ e out. give_up dir (run_error ("checkout " <> c.commit_sha) e (redact out c.token)))

  unfoldable pub fetch_commit : Checkout → String → Work (Outcome String)
  fetch_commit c dir = run_then dir (fetch_sha c) (check_out c dir) (λ e out.
      run_then dir (fetch_branch c) (check_out c dir)
        (λ e out. give_up dir (run_error ("fetch " <> c.branch) e (redact out c.token))))

  -- The loop over `steps`.
  unfoldable pub run_steps :
      List (List String) → String → Work (Outcome String) → Work (Outcome String)
  run_steps [] dir onward = onward
  run_steps (s ∷ steps) dir onward =
      run_then dir s (run_steps steps dir onward) (λ e out. give_up dir (run_error (join s) e out))

  abbrev pub made : Checkout → String → Option String → Work (Outcome String)
  made c dir (some e) t = (fails ("create workspace: " <> e), t)
  made c dir none t =
      run_steps (init_args ∷ remote_args c ∷ []) dir (fetch_commit c dir) (made_dir dir ∷ t)

  unfoldable pub prepare_workspace : Checkout → Work (Outcome String)
  prepare_workspace c t = made c (workspace_dir c) (O.make_dir t (workspace_dir c)) t
