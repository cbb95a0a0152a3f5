-- ===== src/Github/Signature.antt =====
-- internal/github/webhook.go, VerifySignature: which bodies are accepted.
use text.Mathlib.Text.{starts_with}
use grid_runner.Prelude.{
  ℕ, ◌≡◌, refl, ◌≢◌, String, true, some, none, Option, List, [], ◌∷◌, arith, eq_iff,
}
use grid_runner.Fallible.{ok}
use grid_runner.Github.{
  Crypto, bytes_equal, hex_decode, codes, trim_prefix, check_digest, verify_signature,
}

bytes_equal_sound : (a b : List ℕ) → bytes_equal a b ≡ true → a ≡ b
unfolding bytes_equal
bytes_equal_sound [] [] h = refl
bytes_equal_sound [] (y ∷ b) h = absurd (cc)
bytes_equal_sound (x ∷ a) [] h = absurd (cc)
bytes_equal_sound (x ∷ a) (y ∷ b) h = ground (arith, bytes_equal_sound a b)

check_digest_sound :
    (C : Crypto) (want : List ℕ) (got : Option (List ℕ))
    → check_digest C want got ≡ ok tt
    → got ≡ some want
check_digest_sound C want none h = absurd (cc)
check_digest_sound C want (some got) h = ground (arith, bytes_equal_sound want got)

-- If a body passes, a secret is configured, the header begins with `sha256=`, and what follows
-- decodes to exactly the HMAC of the body; with no secret every body is refused.
verify_signature_sound :
    (C : Crypto) (secret : String) (body : List ℕ) (header : String)
    → verify_signature C secret body header ≡ ok tt
    → (secret ≢ "")
      × (starts_with header "sha256=" ≡ true)
      × (hex_decode (codes (trim_prefix header "sha256=")) ≡ some (C.hmac_sha256 secret body))
unfolding verify_signature
verify_signature_sound C secret body header h = (
  ground (arith, eq_iff secret ""),
  ground arith,
  check_digest_sound C (C.hmac_sha256 secret body)
      (hex_decode (codes (trim_prefix header "sha256="))) (ground arith),
)
