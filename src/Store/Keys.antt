-- ===== src/Store/Keys.antt =====
-- The primary key of `jobs` and the unique index on its unfinished rows.
use grid_runner.Prelude.{
  ◌≡◌, refl, Bool, true, false, not, List, [], ◌∷◌, ◌++◌, arith, ◌==◌, if◌then◌else◌, ℕ,
}
use grid_runner.Models.{Job, JobStatus, terminal}
use grid_runner.Store.{JobRow}
use grid_runner.Store.Rows.{update_rows}
use grid_runner.Store.Steps.{JobStep, JobStep-refl}
use grid_runner.Store.Creation.{in_index, clashes, violates, new_row}

-- Two rows with different ids, of which the index holds at most one unless their columns differ.
pub record AreDistinct (r x : JobRow) : Type 0 where
  pub ids : (r.id == x.id) ≡ false
  pub index : clashes r.job x.job ≡ false

abbrev pub AreAllDistinct : JobRow → List JobRow → Type 0
AreAllDistinct r [] = Unit {0}
AreAllDistinct r (x ∷ xs) = AreDistinct r x × AreAllDistinct r xs

-- The key and the index hold.
abbrev pub HasKeys : List JobRow → Type 0
HasKeys [] = Unit {0}
HasKeys (x ∷ xs) = AreAllDistinct x xs × HasKeys xs

in_index-not-terminal : (s : JobStatus) → in_index s ≡ not (terminal s)
in_index-not-terminal s = ground arith

-- A row enters the index only when it is inserted.
in_index-later : (r t : JobRow) → JobStep r t → in_index t.status ≡ true → in_index r.status ≡ true
in_index-later r t st h =
    ground (arith, st.frozen, in_index-not-terminal r.status, in_index-not-terminal t.status)

AreDistinct-later :
    (r t x y : JobRow) → JobStep r t → JobStep x y → AreDistinct r x → AreDistinct t y
AreDistinct-later r t x y p q d = record {
  ids = ground (arith, p.identity.id, q.identity.id, d.ids);
  index = ground (
    arith,
    in_index-later r t p,
    in_index-later x y q,
    p.identity.repository,
    q.identity.repository,
    p.identity.commit_sha,
    q.identity.commit_sha,
    p.identity.event_type,
    q.identity.event_type,
    d.index,
  );
}

module _ (p : JobRow → Bool) (f : JobRow → JobRow)
    (step : (r : JobRow) → p r ≡ true → JobStep r (f r)) where
  abbrev later : JobRow → JobRow
  later r = if p r then f r else r

  later_step : (r : JobRow) → JobStep r (later r)
  later_step r = go (p r) (step r)
    where
      go : (b : Bool) → (b ≡ true → JobStep r (f r)) → JobStep r (if b then f r else r)
      go true h = h refl
      go false h = JobStep-refl r

  AreAllDistinct-update_rows :
      (r : JobRow) (xs : List JobRow)
      → AreAllDistinct r xs
      → AreAllDistinct (later r) (update_rows p f xs)
  unfolding update_rows
  AreAllDistinct-update_rows r [] h = tt
  AreAllDistinct-update_rows r (x ∷ xs) h = (
    AreDistinct-later r (later r) x (later x) (later_step r) (later_step x) h.0,
    AreAllDistinct-update_rows r xs h.1,
  )

  pub HasKeys-update_rows : (xs : List JobRow) → HasKeys xs → HasKeys (update_rows p f xs)
  unfolding update_rows
  HasKeys-update_rows [] h = tt
  HasKeys-update_rows (x ∷ xs) h = (AreAllDistinct-update_rows x xs h.0, HasKeys-update_rows xs h.1)

AreAllDistinct-append :
    (r : JobRow) (xs : List JobRow) (x : JobRow)
    → AreAllDistinct r xs
    → AreDistinct r x
    → AreAllDistinct r (xs ++ x ∷ [])
AreAllDistinct-append r [] x h d = (d, tt)
AreAllDistinct-append r (y ∷ xs) x h d = (h.0, AreAllDistinct-append r xs x h.1 d)

-- A row that passes the tests of the INSERT breaks neither.
pub HasKeys-insert :
    (now : ℕ) (j : Job) (xs : List JobRow)
    → violates j xs ≡ false
    → HasKeys xs
    → HasKeys (xs ++ new_row now j ∷ [])
unfolding violates
HasKeys-insert now j [] v h = (tt, tt)
HasKeys-insert now j (x ∷ xs) v h = (
  AreAllDistinct-append x xs (new_row now j) h.0
      (record { ids = ground arith; index = ground arith }),
  HasKeys-insert now j xs (ground arith) h.1,
)
