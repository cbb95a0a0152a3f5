-- ===== src/Fallible.antt =====
-- Results of Go functions that return an `error`: the sentinel errors of the packages, and one
-- value for the failures that carry only a message.

pub data Err : Type 0 where
  -- store.ErrNotFound, store.ErrDuplicate, store.ErrInvalidTransition
  not_found duplicate invalid_transition : Err
  -- "runner %s is no longer idle" of AssignJob
  not_idle : Err
  -- SQLSTATE 23505, and 23503 for `runner_id REFERENCES runners(id)`
  unique_violation foreign_key_violation : Err
  -- a number that does not fit the column's type
  out_of_range : Err
  -- queue.ErrEmpty, scheduler.ErrNoRunner, github.ErrIgnored
  empty no_runner ignored : Err
  -- PostgreSQL, Redis, GitHub or Docker did not answer, or answered with an error of its own
  unavailable : Err
  -- input that a check refuses, with a message only
  malformed : Err
  -- the context of a request is done; GitHub's rate limit is used up; GitHub refuses a request
  context_done rate_limited rejected : Err

pub data Result {ℓ} (A : Type ℓ) : Type ℓ where
  ok : A → Result A
  err : Err → Result A
