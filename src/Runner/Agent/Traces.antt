-- ===== src/Runner/Agent/Traces.antt =====
-- internal/runner/agent.go: what the actions of a runner leave behind.
use grid_runner.Prelude.{
  ◌≡◌, refl, ap, ◌∙◌, ◌⊎◌, inl, inr, String, true, Option, none, some, List, [], ◌∷◌, ◌++◌, ◌==◌,
  eq_refl, ℤ, if◌then◌else◌,
}
use grid_runner.Models.{JobStatus}
use grid_runner.Runner.{
  Action, made_dir, ran, removed_dir, read_file, said, closed_stream, listed_images, pulled_image,
  created, started, streamed_logs, awaited, removed, set_active, cleared_active, asked_start,
  reported, Trace, AllOf,
}
use grid_runner.Runner.Workspace.Cleanup.{commands}
use grid_runner.Runner.Docker.Removal.{without, containers, is_dockers, IsTidy}

abbrev pub Report : Type 0
Report = String × JobStatus × ℤ × String

-- The results that were reported, the directories that were made and not removed, and the job that
-- the heartbeats name.
pub record Seen : Type 0 where
  pub reports : List Report
  pub dirs : List String
  pub active : Option String

abbrev cleared : String → Option String → Option String
cleared id none = none
cleared id (some other) = if other == id then none else some other

abbrev see : Action → Seen → Seen
see (made_dir d) s = record s { dirs = d ∷ s.dirs }
see (removed_dir d) s = record s { dirs = without d s.dirs }
see (set_active id) s = record s { active = some id }
see (cleared_active id) s = record s { active = cleared id s.active }
see (reported id status code text) s = record s { reports = (id, status, code, text) ∷ s.reports }
see _ s = s

abbrev pub seen : Trace → Seen
seen [] = record { reports = []; dirs = []; active = none }
seen (a ∷ t) = see a (seen t)

see-dockers : (a : Action) (s : Seen) → is_dockers a ≡ true → see a s ≡ s
see-dockers (said text) s h = refl
see-dockers (listed_images ref) s h = refl
see-dockers (pulled_image ref) s h = refl
see-dockers (created c id) s h = refl
see-dockers (started id) s h = refl
see-dockers (streamed_logs id) s h = refl
see-dockers (awaited id) s h = refl
see-dockers (removed id) s h = refl
see-dockers (made_dir d) s h = absurd (cc)
see-dockers (ran d args) s h = absurd (cc)
see-dockers (removed_dir d) s h = absurd (cc)
see-dockers (read_file f) s h = absurd (cc)
see-dockers closed_stream s h = absurd (cc)
see-dockers (set_active id) s h = absurd (cc)
see-dockers (cleared_active id) s h = absurd (cc)
see-dockers (asked_start id) s h = absurd (cc)
see-dockers (reported id status code text) s h = absurd (cc)

seen-AllOf : (more t : Trace) → AllOf is_dockers more → seen (more ++ t) ≡ seen t
seen-AllOf [] t h = refl
seen-AllOf (a ∷ more) t (p, h) = ap (see a) (seen-AllOf more t h) ∙ see-dockers a (seen t) p

-- An executor is not seen here.
pub seen-IsTidy : (t u : Trace) → IsTidy t u → seen u ≡ seen t
seen-IsTidy t u ((more, grown, all), same) = ap seen grown ∙ seen-AllOf more t all

pub seen-commands :
    (dir : String) (runs : List (List String)) (t : Trace) → seen (commands dir runs ++ t) ≡ seen t
seen-commands dir [] t = refl
seen-commands dir (args ∷ runs) t = seen-commands dir runs t

pub containers-commands :
    (dir : String) (runs : List (List String)) (t : Trace)
    → containers (commands dir runs ++ t) ≡ containers t
containers-commands dir [] t = refl
containers-commands dir (args ∷ runs) t = containers-commands dir runs t

-- The heartbeats name this job or none.
abbrev pub IsActive : String → Option String → Type 0
IsActive id o = (o ≡ some id) ⊎ (o ≡ none)

pub cleared-IsActive : (id : String) (o : Option String) → IsActive id o → cleared id o ≡ none
cleared-IsActive id none h = refl
cleared-IsActive id (some other) (inl e) =
    let same : other ≡ id = cc in rw same (rw (eq_refl id) refl)
cleared-IsActive id (some other) (inr e) = absurd (cc)
