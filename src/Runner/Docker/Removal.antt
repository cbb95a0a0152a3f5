-- ===== src/Runner/Docker/Removal.antt =====
-- internal/executor/docker.go: which containers are left, and what an execution may do.
use grid_runner.Prelude.{
  ℕ, ◌≡◌, refl, ap, ◌∙◌, inl, inr, String, Bool, true, false, Option, none, some, List, [], ◌∷◌,
  ◌==◌, eq_refl, ltb, Bool-cases, if◌then◌else◌,
}
use grid_runner.Runner.{
  Outcome, gives, fails, Action, said, listed_images, pulled_image, created, started, streamed_logs,
  awaited, removed, Trace, Waited, wait_failed, exited, deadline, stopped, Outside, IsOf, IsOf-refl,
  IsOf-more, IsOf-trans,
}
use grid_runner.Runner.Docker.{
  Request, container, pulled, listed, ensure_image, waited, begun, run_container, made, with_image,
  docker_execute,
}

abbrev pub without : String → List String → List String
without id [] = []
without id (x ∷ xs) = if x == id then xs else x ∷ without id xs

-- The containers that were made and not removed.
abbrev pub containers : Trace → List String
containers [] = []
containers (created c id ∷ t) = id ∷ containers t
containers (removed id ∷ t) = without id (containers t)
containers (_ ∷ t) = containers t

-- Nothing but Docker and the log of the job.
abbrev pub is_dockers : Action → Bool
is_dockers (said text) = true
is_dockers (listed_images ref) = true
is_dockers (pulled_image ref) = true
is_dockers (created c id) = true
is_dockers (started id) = true
is_dockers (streamed_logs id) = true
is_dockers (awaited id) = true
is_dockers (removed id) = true
is_dockers _ = false

-- The trace grew by such actions, and as many containers are left.
abbrev pub IsTidy : Trace → Trace → Type 0
IsTidy t t' = IsOf is_dockers t t' × (containers t' ≡ containers t)

module _ (O : Outside) where
  ensure_image-IsTidy : (ref : String) (t : Trace) → IsTidy t (ensure_image O ref t).1
  unfolding ensure_image
  ensure_image-IsTidy ref t = go (O.list_images t ref)
    where
      pull-IsTidy :
          (e : Option String) (base : Trace)
          → IsTidy t base
          → IsTidy t (pulled O ref e (pulled_image ref ∷ base)).1
      pull-IsTidy (some e) base (of, same) =
          (IsOf-more is_dockers t base (pulled_image ref) refl of, same)
      pull-IsTidy none base (of, same) =
          (IsOf-more is_dockers t base (pulled_image ref) refl of, same)

      go : (answer : Outcome ℕ) → IsTidy t (listed O ref answer (listed_images ref ∷ t)).1
      go (fails e) =
          (IsOf-more is_dockers t t (listed_images ref) refl (IsOf-refl is_dockers t), refl)
      go (gives n) =
          let base = IsOf-more is_dockers t t (listed_images ref) refl (IsOf-refl is_dockers t) in
          elim (Bool-cases (ltb 0 n)) [
            | inl present ↦ rw present (base, refl)
            | inr absent ↦
                rw absent (pull-IsTidy _ _ (IsOf-more is_dockers t _ (said _) refl base, refl))
          ]

  run_container-IsTidy :
      (req : Request) (id : String) (t : Trace) → IsTidy t (run_container O req id t).1
  unfolding run_container
  run_container-IsTidy req id t = go (O.start t id)
    where
      first : IsOf is_dockers t (started id ∷ t)
      first = IsOf-more is_dockers t t (started id) refl (IsOf-refl is_dockers t)

      wait : (w : Waited) (base : Trace) → IsTidy t base → IsTidy t (waited O req w base).1
      wait (wait_failed e) base h = h
      wait (exited code) base h = h
      wait deadline base (of, same) = (IsOf-more is_dockers t base _ refl of, same)
      wait (stopped e) base (of, same) = (IsOf-more is_dockers t base _ refl of, same)

      go : (answer : Option String) → IsTidy t (begun O req id answer (started id ∷ t)).1
      go (some e) = (first, refl)
      go none = wait _ _ (
        IsOf-more is_dockers t _ (awaited id) refl
            (IsOf-more is_dockers t _ (streamed_logs id) refl first),
        refl,
      )

  -- However an execution ends, the containers are those that there were before it: the one that it
  -- made is removed. All that it does is the work of Docker and of the log.
  pub docker_execute-IsTidy : (req : Request) (t : Trace) → IsTidy t (docker_execute O req t).1
  unfolding docker_execute
  docker_execute-IsTidy req t =
      go (ensure_image O req.spec.image t) (ensure_image-IsTidy req.spec.image t)
    where
      make :
          (answer : Outcome String) (base : Trace)
          → IsTidy t base
          → IsTidy t (made O req answer base).1
      make (fails e) base h = h
      make (gives id) base (of, same) =
          let (more, held) = run_container-IsTidy req id (created (container req) id ∷ base) in
          (
            IsOf-more is_dockers t _ (removed id) refl (
                IsOf-trans is_dockers t _ _
                  (IsOf-more is_dockers t base (created (container req) id) refl of) more),
            ap (without id) held ∙ (rw (eq_refl id) same),
          )

      go : (image : Option String × Trace) → IsTidy t image.1 → IsTidy t (with_image O req image).1
      go (some e, base) h = h
      go (none, base) h = make (O.create base (container req)) base h
