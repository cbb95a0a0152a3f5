-- ===== src/Github.antt =====
-- internal/github/webhook.go: the signature of a webhook, and the event that its payload holds.
-- HMAC-SHA256 and the decoding of JSON are parameters.
pub mod Signature
pub mod Client
pub mod Retries
pub mod App
pub mod Tokens
pub mod Minting
pub mod Scopes
pub mod Choice
pub mod Accepted
use Prim.Native.Char.{code}
use Prim.Native.String.{len, slice}
use text.Mathlib.Text.{starts_with}
use grid_runner.Prelude.{
  ℕ, ◌+◌, ◌-◌, ◌*◌, String, Bool, true, false, not, ◌&&◌, ◌||◌, Option, none, some, List, [], ◌∷◌,
  reverse, ltb, leb, ◌==◌, if◌then◌else◌,
}
use grid_runner.Fallible.{Result, ok, err, malformed, ignored}

pub record PushPayload : Type 0 where
  pub ref : String
  pub after : String
  pub deleted : Bool
  pub full_name : String
  pub clone_url : String

pub record PullRequestPayload : Type 0 where
  pub action : String
  pub number : ℕ
  pub head_sha : String
  pub head_ref : String
  pub full_name : String
  pub clone_url : String

-- What the package calls and does not implement.
pub record Crypto : Type 0 where
  pub hmac_sha256 : String → List ℕ → List ℕ
  pub decode_push : List ℕ → Option PushPayload
  pub decode_pull_request : List ℕ → Option PullRequestPayload

abbrev pub codes : String → List ℕ
codes String.[] = []
codes (String.◌∷◌ c s) = code c ∷ codes s

-- `strings.TrimPrefix`.
unfoldable pub trim_prefix : String → String → String
trim_prefix s prefix = if starts_with s prefix then slice s (len prefix) (len s) else s

-- `hex.DecodeString`: digits in pairs, of either case.
unfoldable pub hex_digit : ℕ → Option ℕ
hex_digit c =
    if leb b'0' c && leb c b'9'
    then some (c - 48)
    else if leb b'a' c && leb c b'f'
    then some (c - 87)
    else if leb b'A' c && leb c b'F'
    then some (c - 55)
    else none

abbrev pub join_digits : Option ℕ → Option ℕ → Option (List ℕ) → Option (List ℕ)
join_digits (some h) (some l) (some rest) = some ((h * 16 + l) ∷ rest)
join_digits _ _ _ = none

unfoldable pub hex_decode : List ℕ → Option (List ℕ)
hex_decode [] = some []
hex_decode (h ∷ []) = none
hex_decode (h ∷ l ∷ cs) = join_digits (hex_digit h) (hex_digit l) (hex_decode cs)

unfoldable pub bytes_equal : List ℕ → List ℕ → Bool
bytes_equal [] [] = true
bytes_equal [] (b ∷ ys) = false
bytes_equal (a ∷ xs) [] = false
bytes_equal (a ∷ xs) (b ∷ ys) = (leb a b && leb b a) && bytes_equal xs ys

-- `strings.Trim(s, cutset) != ""` over code points.
unfoldable pub in_set : List ℕ → ℕ → Bool
in_set [] c = false
in_set (d ∷ ds) c = (leb c d && leb d c) || in_set ds c

unfoldable pub trim_left : List ℕ → List ℕ → List ℕ
trim_left cutset [] = []
trim_left cutset (c ∷ cs) = if in_set cutset c then trim_left cutset cs else c ∷ cs

abbrev pub trim : List ℕ → List ℕ → List ℕ
trim cutset cs = reverse (trim_left cutset (reverse (trim_left cutset cs)))

abbrev pub is_nil : List ℕ → Bool
is_nil [] = true
is_nil (c ∷ cs) = false

abbrev pub hex_alphabet : List ℕ
hex_alphabet = codes "0123456789abcdef"

pub record Event : Type 0 where
  pub repository : String
  pub clone_url : String
  pub commit_sha : String
  pub branch : String
  pub event_type : String
  pub pr_number : ℕ

unfoldable pub is_sha : String → Bool
is_sha s = (leb (len s) 40 && leb 40 (len s)) && is_nil (trim hex_alphabet (codes s))

-- Each `return` of `validate` refuses with a message of its own.
unfoldable pub validate : Event → Result Event
validate e =
    if not (in_set (codes e.repository) b'/')
    then err malformed
    else if not (is_sha e.commit_sha)
    then err malformed
    else if not (starts_with e.clone_url "https://")
    then err malformed
    else if e.branch == ""
    then err malformed
    else ok e

abbrev pub push_event : PushPayload → Event
push_event p = record {
  repository = p.full_name;
  clone_url = p.clone_url;
  commit_sha = p.after;
  branch = trim_prefix p.ref "refs/heads/";
  event_type = "push";
  pr_number = 0;
}

abbrev pub pull_request_event : PullRequestPayload → Event
pull_request_event p = record {
  repository = p.full_name;
  clone_url = p.clone_url;
  commit_sha = p.head_sha;
  branch = p.head_ref;
  event_type = "pull_request";
  pr_number = p.number;
}

unfoldable pub parse_push : Option PushPayload → Result Event
parse_push none = err malformed
parse_push (some p) =
    if p.deleted || not (starts_with p.ref "refs/heads/")
    then err ignored
    else validate (push_event p)

unfoldable pub parse_pull_request : Option PullRequestPayload → Result Event
parse_pull_request none = err malformed
parse_pull_request (some p) =
    if p.action == "opened" || (p.action == "synchronize" || p.action == "reopened")
    then validate (pull_request_event p)
    else err ignored

module _ (C : Crypto) where
  open C use {hmac_sha256, decode_push, decode_pull_request}

  abbrev pub check_digest : List ℕ → Option (List ℕ) → Result (Unit {0})
  check_digest want none = err malformed
  check_digest want (some got) = if bytes_equal want got then ok tt else err malformed

  unfoldable pub verify_signature : String → List ℕ → String → Result (Unit {0})
  verify_signature secret body header =
      if secret == ""
      then err malformed
      else if not (starts_with header "sha256=")
      then err malformed
      else check_digest (hmac_sha256 secret body)
          (hex_decode (codes (trim_prefix header "sha256=")))

  unfoldable pub parse_event : String → List ℕ → Result Event
  parse_event event_type body =
      if event_type == "push"
      then parse_push (decode_push body)
      else if event_type == "pull_request"
      then parse_pull_request (decode_pull_request body)
      else err ignored
