-- ===== src/Github/Client.antt =====
-- internal/github/client.go: requests to GitHub, tried again when the failure may pass. What the
-- network makes of each attempt is part of the state.
use Prim.Native.String.{◌++◌ as ◌<>◌}
use grid_runner.Prelude.{
  ℕ, zero, suc, String, Bool, true, false, not, ◌&&◌, List, [], ◌∷◌, ◌++◌, ltb, leb, length, take,
  ◌==◌, if◌then◌else◌,
}
use grid_runner.Fallible.{
  Result, ok, err, malformed, unavailable, context_done, rate_limited, rejected,
}
use grid_runner.Exec.{Exec, pure, raise, choose, ◌>>=◌, ◌>>◌}

pub record Reply : Type 0 where
  pub code : ℕ
  -- the header X-RateLimit-Remaining
  pub remaining : String
  pub body : List ℕ

pub data Answer : Type 0 where
  unreachable : Answer
  replies : Reply → Answer

-- One attempt: whether the context ends in the pause before it, and the answer.
pub record Attempt : Type 0 where
  pub cancelled : Bool
  pub answer : Answer

pub record StatusBody : Type 0 where
  pub state : String
  pub description : List ℕ
  pub context : String
  pub target_url : String

-- `"repositories"` and `"permissions"` of a request for an installation token.
pub record TokenBody : Type 0 where
  pub repository : String
  pub permissions : List (String × String)

pub data Payload : Type 0 where
  no_body : Payload
  status_body : StatusBody → Payload
  token_body : TokenBody → Payload

pub record Call : Type 0 where
  pub method : String
  pub url : String
  pub bearer : String
  pub payload : Payload

-- Which calls `http.NewRequestWithContext` makes a request of (it refuses a URL that does not parse),
-- what the network will do, and the exchanges so far. Past the end nothing is reached.
pub record Network : Type 0 where
  pub makes : Call → Bool
  pub attempts : List Attempt
  pub log : List (Call × Answer)

-- `resp.StatusCode < 500 && resp.StatusCode != http.StatusTooManyRequests`.
abbrev pub is_final : ℕ → Bool
is_final code = ltb code 500 && not (leb code 429 && leb 429 code)

abbrev pub next_attempt : List Attempt → Attempt
next_attempt [] = record { cancelled = false; answer = unreachable }
next_attempt (a ∷ rest) = a

abbrev pub later_attempts : List Attempt → List Attempt
later_attempts [] = []
later_attempts (a ∷ rest) = rest

abbrev pub take_attempt : Exec Network Attempt
take_attempt n = (ok (next_attempt n.attempts), record n { attempts = later_attempts n.attempts })

abbrev pub do_call : Call → Answer → Exec Network (Unit {0})
do_call c a n = (ok tt, record n { log = n.log ++ (c, a) ∷ [] })

-- `newReq()`.
abbrev pub new_request : Call → Exec Network (Unit {0})
new_request c n = (if n.makes c then ok tt else err malformed, n)

abbrev pub judge : Answer → Exec Network Reply → Exec Network Reply
judge unreachable again = again
judge (replies r) again = choose (is_final r.code) (pure r) again

-- The loop with `left` attempts to go; there is a pause before all but the first.
unfoldable pub send_loop : ℕ → Bool → Call → Exec Network Reply
send_loop zero first c = raise unavailable
send_loop (suc left) first c = do
  a ← take_attempt
  choose (not first && a.cancelled) (raise context_done)
      (new_request c >> do_call c a.answer >> judge a.answer (send_loop left false c))

unfoldable pub send : Call → Exec Network Reply
send c = send_loop 3 true c

unfoldable pub check_response : Reply → Result (Unit {0})
check_response r =
    if ltb r.code 300 then ok tt else if r.remaining == "0" then err rate_limited else err rejected

unfoldable pub truncate : List ℕ → ℕ → List ℕ
truncate s n = if leb (length s) n then s else take n s

abbrev pub github_base : String
github_base = "https://api.github.com"

abbrev pub status_call : String → String → String → String → List ℕ → String → Call
status_call token repo sha state description target_url = record {
  method = "POST";
  url = github_base <> ("/repos/" <> (repo <> ("/statuses/" <> sha)));
  bearer = token;
  payload = status_body (record {
    state = state;
    description = truncate description 140;
    context = "forgerun";
    target_url = target_url;
  });
}

abbrev pub checked : Reply → Exec Network (Unit {0})
checked r n = (check_response r, n)

unfoldable pub post_status :
    String → String → String → String → List ℕ → String → Exec Network (Unit {0})
post_status token repo sha state description target_url = do
  reply ← send (status_call token repo sha state description target_url)
  checked reply
