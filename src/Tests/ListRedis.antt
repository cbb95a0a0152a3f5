-- ===== src/Tests/ListRedis.antt =====
-- A Redis in memory: every key has a list. It satisfies the laws that the queue relies on.
use grid_runner.Prelude.{
  ◌≡◌, refl, ap, ◌∙◌, String, Option, none, some, List, [], ◌∷◌, ◌++◌, ◌==◌, if◌then◌else◌,
}
use grid_runner.Queue.{Redis, remove_first}

-- The last element, and what stands before it.
abbrev grown : String → Option (List String × String) → Option (List String × String)
grown x none = some ([], x)
grown x (some (xs, y)) = some (x ∷ xs, y)

abbrev pub split_last : List String → Option (List String × String)
split_last [] = none
split_last (x ∷ xs) = grown x (split_last xs)

pub split_last-append : (xs : List String) (x : String) → split_last (xs ++ x ∷ []) ≡ some (xs, x)
split_last-append [] x = refl
split_last-append (y ∷ xs) x = ap (grown y) (split_last-append xs x)

abbrev pub Lists : Type 0
Lists = String → List String

abbrev pub put : String → List String → Lists → Lists
put k xs d j = if k == j then xs else d j

abbrev moved : String → String → Lists → Option (List String × String) → Option (String × Lists)
moved k t d none = none
moved k t d (some (xs, x)) = some (x, λ j. if k == j then xs else if t == j then x ∷ d j else d j)

abbrev popped : String → Lists → Option (List String × String) → Option (String × Lists)
popped k d none = none
popped k d (some (xs, x)) = some (x, put k xs d)

instance abbrev pub list_redis : Redis
list_redis = record {
  Db = Lists;
  list = λ d k. d k;
  lpush = λ k v d j. if k == j then v ∷ d j else d j;
  lrem = λ k v d j. if k == j then remove_first v (d j) else d j;
  blmove = λ k t d. moved k t d (split_last (d k));
  brpop = λ k d. popped k d (split_last (d k));
  expire = λ k d. d;
  list-lpush = λ k v d j. refl;
  list-lrem = λ k v d j. refl;
  list-expire = λ k d j. refl;
  blmove_empty = λ k t d e. rw e refl;
  blmove_last = λ k t d xs x ne e.
      (_, ap (moved k t d) (ap split_last e ∙ split_last-append xs x), λ j. refl);
  brpop_empty = λ k d e. rw e refl;
  brpop_last =
      λ k d xs x e. (_, ap (popped k d) (ap split_last e ∙ split_last-append xs x), λ j. refl);
}
