-- ===== src/Github/Retries.antt =====
-- internal/github/client.go, send: how often a request is made, and which answer counts.
use mathlib.Core.List.{append_assoc, append-nil}
use grid_runner.Prelude.{
  Bool, ℕ, zero, suc, ◌≤◌, ◌≡◌, refl, sym, ap, ◌∙◌, ◌⊎◌, inl, inr, true, false, List, [], ◌∷◌, ◌++◌,
  map, arith, length, take, leb, Bool-cases,
}
use grid_runner.Fallible.{Result, ok, err, malformed, unavailable, context_done}
use grid_runner.Exec.{pure, raise, choose, ◌>>=◌}
use grid_runner.Github.Client.{
  Reply, Answer, unreachable, replies, Attempt, Network, Call, is_final, next_attempt,
  later_attempts, judge, send_loop, send, truncate,
}

-- The answer may be another one next time.
abbrev pub IsTransient : Answer → Type 0
IsTransient unreachable = Unit {0}
IsTransient (replies r) = is_final r.code ≡ false

abbrev pub IsDecisive : Answer → Result Reply → Type 0
IsDecisive unreachable r = ⊥
IsDecisive (replies x) r = (is_final x.code ≡ true) × (r ≡ ok x)

-- How a request with `left` attempts ends, after the answers so far.
abbrev pub Ends : ℕ → List Answer → Result Reply → Type 0
Ends zero [] r = r ≡ err unavailable
Ends zero (a ∷ made) r = ⊥
Ends (suc left) [] r = r ≡ err context_done
Ends (suc left) (a ∷ made) r = (IsDecisive a r × (made ≡ [])) ⊎ (IsTransient a × Ends left made r)

abbrev pub exchanges : Call → List Answer → List (Call × Answer)
exchanges c made = map (λ a. (c, a)) made

abbrev network : (Call → Bool) → List Attempt → List (Call × Answer) → Network
network makes attempts log = record { makes = makes; attempts = attempts; log = log }

abbrev Tried : ℕ → Call → Network → Result Reply × Network → Type 0
Tried left c n (r, m) =
    (made : List Answer) × (m.log ≡ n.log ++ exchanges c made) × Ends left made r

-- Some attempt is made.
abbrev Made : ℕ → Call → Network → Result Reply × Network → Type 0
Made left c n (r, m) =
    (a : Answer) × (made : List Answer) × (m.log ≡ n.log ++ exchanges c (a ∷ made))
    × Ends left (a ∷ made) r

module _ (makes : Call → Bool) where
  Tried-more :
      (left : ℕ) (c : Call) (a : Answer) (later : List Attempt) (log : List (Call × Answer))
      (out : Result Reply × Network)
      → IsTransient a
      → Tried left c (network makes later (log ++ (c, a) ∷ [])) out
      → (made : List Answer) × (out.1.log ≡ log ++ exchanges c (a ∷ made))
        × Ends (suc left) (a ∷ made) out.0
  Tried-more left c a later log out again (made, grown, ends) =
      (made, grown ∙ append_assoc log ((c, a) ∷ []) (exchanges c made), inr (again, ends))

  judged :
      (left : ℕ) (c : Call) (a : Answer) (later : List Attempt) (log : List (Call × Answer))
      → ((more : List (Call × Answer))
          → Tried left c
              (network makes later more)
              (send_loop left false c (network makes later more)))
      → Made
          (suc left)
          c
          (network makes later log)
          (judge a (send_loop left false c) (network makes later (log ++ (c, a) ∷ [])))
  unfolding choose pure
  judged left c unreachable later log rest =
      let (made, grown, ends) =
        Tried-more left c unreachable later log
          (send_loop left false c (network makes later (log ++ (c, unreachable) ∷ []))) tt
          (rest (log ++ (c, unreachable) ∷ [])) in
      (unreachable, made, grown, ends)
  judged left c (replies r) later log rest = elim (Bool-cases (is_final r.code)) [
    | inl last ↦ rw last (replies r, [], refl, inl ((last, refl), refl))
    | inr again ↦
        let (made, grown, ends) =
          Tried-more left c (replies r) later log
            (send_loop left false c (network makes later (log ++ (c, replies r) ∷ []))) again
            (rest (log ++ (c, replies r) ∷ [])) in
        rw again (replies r, made, grown, ends)
  ]

  Tried-loop :
      (left : ℕ) (c : Call) (attempts : List Attempt) (log : List (Call × Answer))
      → makes c ≡ true
      → Tried left c
          (network makes attempts log)
          (send_loop left false c (network makes attempts log))
  unfolding send_loop choose raise ◌>>=◌
  Tried-loop zero c attempts log fine = ([], sym (append-nil log), refl)
  Tried-loop (suc left) c attempts log fine = elim (Bool-cases (next_attempt attempts).cancelled) [
    | inl stopped ↦ rw stopped ([], sym (append-nil log), refl)
    | inr calm ↦
        let (a, made, grown, ends) =
          judged left c (next_attempt attempts).answer (later_attempts attempts) log
            (λ more. Tried-loop left c (later_attempts attempts) more fine) in
        rw (calm, fine) (a ∷ made, grown, ends)
  ]

pub send-Made : (c : Call) (n : Network) → n.makes c ≡ true → Made 3 c n (send c n)
unfolding send send_loop choose raise ◌>>=◌
send-Made c n fine = rw fine (
    judged n.makes 2 c (next_attempt n.attempts).answer (later_attempts n.attempts) n.log
      (λ more. Tried-loop n.makes 2 c (later_attempts n.attempts) more fine))

send-unmade :
    (c : Call) (n : Network)
    → n.makes c ≡ false
    → ((send c n).0 ≡ err malformed) × ((send c n).1.log ≡ n.log)
unfolding send send_loop choose raise ◌>>=◌
send-unmade c n bad = rw bad (refl, refl)

Ends-length :
    (left : ℕ) (made : List Answer) (r : Result Reply) → Ends left made r → length made ≤ left
Ends-length zero [] r h = omega arith
Ends-length zero (a ∷ made) r h = absurd h
Ends-length (suc left) [] r h = omega arith
Ends-length (suc left) (a ∷ made) r (inl (final, only)) = rw only (omega arith)
Ends-length (suc left) (a ∷ made) r (inr (again, ends)) =
    let shorter = Ends-length left made r ends in omega (arith, shorter)

pub send-Ends :
    (c : Call) (n : Network)
    → ((n.makes c ≡ false) × ((send c n).0 ≡ err malformed) × ((send c n).1.log ≡ n.log))
      ⊎ ((n.makes c ≡ true)
          × (a : Answer) × (made : List Answer) × ((send c n).1.log
              ≡ n.log ++ exchanges c (a ∷ made))
          × (length (a ∷ made) ≤ 3)
          × Ends 3 (a ∷ made) (send c n).0)
send-Ends c n = elim (Bool-cases (n.makes c)) [
  | inr bad ↦ let (failed, same) = send-unmade c n bad in inl (bad, failed, same)
  | inl fine ↦
      let (a, made, grown, ends) = send-Made c n fine in
      inr (fine, a, made, grown, Ends-length 3 (a ∷ made) (send c n).0 ends, ends)
]

length-take : (n : ℕ) (s : List ℕ) → length (take n s) ≤ n
length-take zero s = omega arith
length-take (suc n) [] = omega arith
length-take (suc n) (b ∷ s) = let shorter = length-take n s in omega (arith, shorter)

-- The description that is posted is a part of the given one from its start, of at most `n` bytes,
-- and all of it when it is no longer than that.
truncate-bounds :
    (s : List ℕ) (n : ℕ)
    → (length (truncate s n) ≤ n)
      × ((rest : List ℕ) × (s ≡ truncate s n ++ rest))
      × (length s ≤ n → truncate s n ≡ s)
unfolding truncate
truncate-bounds s n = elim (Bool-cases (leb (length s) n)) [
  | inl fits ↦ rw fits (ground arith, ([], sym (append-nil s)), λ h. refl)
  | inr long ↦ rw long (length-take n s, split n s, λ h. absurd (ground arith))
]
  where
    split : (n : ℕ) (s : List ℕ) → (rest : List ℕ) × (s ≡ take n s ++ rest)
    split zero s = (s, refl)
    split (suc n) [] = ([], refl)
    split (suc n) (b ∷ s) = let (rest, e) = split n s in (rest, ap (λ l. b ∷ l) e)
