-- ===== src/Runner/Workspace/Cleanup.antt =====
-- internal/runner/workspace.go, prepareWorkspace: what is done to the directory of a job.
use Prim.Native.String.{◌++◌ as ◌<>◌}
use grid_runner.Prelude.{
  ◌≡◌, refl, ◌⊎◌, inl, inr, String, Option, none, some, List, [], ◌∷◌, ◌++◌, map,
}
use grid_runner.Runner.{Outcome, gives, fails, made_dir, ran, removed_dir, Trace, Work, Outside}
use grid_runner.Runner.Workspace.{
  auth_args, git, Checkout, workspace_dir, init_args, remote_args, fetch_sha, fetch_branch,
  checkout_sha, redact, run_error, give_up, branch_on, run_then, check_out, fetch_commit, run_steps,
  made, prepare_workspace,
}

-- The commands that ran in a directory, the last one first.
abbrev pub commands : String → List (List String) → Trace
commands dir runs = map (λ args. ran dir args) runs

module _ (O : Outside) (c : Checkout) where
  -- The five commands; the first two have no credential.
  abbrev pub IsStep : List String → Type 0
  IsStep args =
      (args ≡ "git" ∷ "init" ∷ "-q" ∷ [])
      ⊎ ((args ≡ "git" ∷ "remote" ∷ "add" ∷ "origin" ∷ c.clone_url ∷ [])
          ⊎ ((args
                ≡ "git"
                  ∷ (auth_args O c.token
                      ++ "fetch" ∷ "-q" ∷ "--depth" ∷ "1" ∷ "origin" ∷ c.commit_sha ∷ []))
              ⊎ ((args
                    ≡ "git"
                      ∷ (auth_args O c.token
                          ++ "fetch" ∷ "-q" ∷ "--depth" ∷ "50" ∷ "origin" ∷ c.branch ∷ []))
                  ⊎ (args
                      ≡ "git" ∷ (auth_args O c.token ++ "checkout" ∷ "-q" ∷ c.commit_sha ∷ [])))))

  abbrev pub AreSteps : List (List String) → Type 0
  AreSteps [] = Unit {0}
  AreSteps (args ∷ runs) = IsStep args × AreSteps runs

  abbrev dir : String
  dir = workspace_dir O c

  -- The directory is removed after an error. Otherwise the last command checked the commit out.
  abbrev pub Ended : Trace → Outcome String × Trace → Type 0
  Ended base out =
      (runs : List (List String)) × AreSteps runs
      × (((text : String) × (out.0 ≡ fails text)
            × (out.1 ≡ removed_dir (workspace_dir O c) ∷ commands (workspace_dir O c) runs ++ base))
          ⊎ ((out.0 ≡ gives (workspace_dir O c))
              × (out.1 ≡ commands (workspace_dir O c) (checkout_sha O c ∷ runs) ++ base)))

  abbrev Goes : Work (Outcome String) → Type 0
  Goes m =
      (base : Trace) (runs : List (List String))
      → AreSteps runs
      → Ended base (m (commands dir runs ++ base))

  give_up-Goes : (text : String) → Goes (give_up dir text)
  give_up-Goes text base runs known = (runs, known, inl (text, refl, refl))

  run_then-Goes :
      (args : List String) (onward : Work (Outcome String))
      (failed : String → String → Work (Outcome String))
      → IsStep args
      → Goes onward
      → ((e out : String) → Goes (failed e out))
      → Goes (run_then O dir args onward failed)
  run_then-Goes args onward failed step good bad base runs known =
      go (O.run (commands dir runs ++ base) dir args)
    where
      go :
          (answer : Option String × String)
          → Ended base (branch_on O answer onward failed (commands dir (args ∷ runs) ++ base))
      go (none, out) = good base (args ∷ runs) (step, known)
      go (some e, out) = bad e out base (args ∷ runs) (step, known)

  check_out-Goes : Goes (check_out O c dir)
  unfolding check_out git
  check_out-Goes base runs known = go (O.run (commands dir runs ++ base) dir (checkout_sha O c))
    where
      go :
          (answer : Option String × String)
          → Ended base (
              branch_on O answer
                (λ t. (gives dir, t))
                (λ e out.
                  give_up dir (run_error ("checkout " <> c.commit_sha) e (redact out c.token)))
                (commands dir (checkout_sha O c ∷ runs) ++ base))
      go (none, out) = (runs, known, inr (refl, refl))
      go (some e, out) =
          give_up-Goes _ base (checkout_sha O c ∷ runs) (inr (inr (inr (inr refl))), known)

  fetch_commit-Goes : Goes (fetch_commit O c dir)
  unfolding fetch_commit git
  fetch_commit-Goes =
      run_then-Goes (fetch_sha O c) (check_out O c dir) _ (inr (inr (inl refl))) check_out-Goes
        (λ e out.
          run_then-Goes (fetch_branch O c) (check_out O c dir) _ (inr (inr (inr (inl refl))))
            check_out-Goes (λ e out. give_up-Goes _))

  run_steps-Goes :
      (steps : List (List String)) (onward : Work (Outcome String))
      → AreSteps steps
      → Goes onward
      → Goes (run_steps O steps dir onward)
  unfolding run_steps
  run_steps-Goes [] onward known good = good
  run_steps-Goes (s ∷ steps) onward (step, known) good =
      run_then-Goes s (run_steps O steps dir onward) _ step (run_steps-Goes steps onward known good)
        (λ e out. give_up-Goes _)

  pub prepare_workspace-Ended :
      (t : Trace)
      → ((text : String) × (prepare_workspace O c t ≡ (fails text, t)))
        ⊎ Ended (made_dir (workspace_dir O c) ∷ t) (prepare_workspace O c t)
  unfolding prepare_workspace
  prepare_workspace-Ended t = go (O.make_dir t dir)
    where
      go :
          (answer : Option String)
          → ((text : String) × (made O c dir answer t ≡ (fails text, t)))
            ⊎ Ended (made_dir dir ∷ t) (made O c dir answer t)
      go (some e) = inl ("create workspace: " <> e, refl)
      go none = inr (
          run_steps-Goes (init_args ∷ remote_args c ∷ []) (fetch_commit O c dir)
            (inl refl, (inr (inl refl), tt)) fetch_commit-Goes (made_dir dir ∷ t) [] tt)
