-- ===== src/Migrations/Undoing.antt =====
-- internal/store/migrate.go: a Rollback after a Migrate.
use grid_runner.Prelude.{◌≡◌, String, true, false, some, List, [], ◌∷◌, ◌++◌, text_lt}
use grid_runner.Migrations.{Engine, Files, read_file, down_name, has_version, Tables}

-- The name comes before all of the list.
abbrev pub IsBelow : String → List String → Type 0
IsBelow x [] = Unit {0}
IsBelow x (y ∷ ys) = (text_lt x y ≡ true) × IsBelow x ys

abbrev pub IsAscending : List String → Type 0
IsAscending [] = Unit {0}
IsAscending (x ∷ xs) = IsBelow x xs × IsAscending xs

-- Each name is new when its turn comes.
abbrev AreNew : List String → List String → Type 0
AreNew [] versions = Unit {0}
AreNew (x ∷ xs) versions = (has_version x versions ≡ false) × AreNew xs (versions ++ x ∷ [])

-- None of the names is recorded.
abbrev AreAbsent : List String → List String → Type 0
AreAbsent [] versions = Unit {0}
AreAbsent (x ∷ xs) versions = (has_version x versions ≡ false) × AreAbsent xs versions

module _ (E : Engine) where
  open E use {Schema, run}

  -- Each file runs from one schema to the next, and its `.down.sql` leads back.
  abbrev pub AreReversible : Files → List String → Schema → Schema → Type 0
  AreReversible files [] s u = s ≡ u
  AreReversible files (name ∷ names) s u =
      (up down : String) × (mid : Schema) × (read_file name files ≡ some up)
      × (read_file (down_name name) files ≡ some down)
      × (run up s ≡ some mid)
      × (run down mid ≡ some s)
      × AreReversible files names mid u

  abbrev pub tables : Schema → List String → Tables E
  tables s versions = record { schema = s; versions = versions }
