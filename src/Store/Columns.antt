-- ===== src/Store/Columns.antt =====
-- migrations/0001_init.sql: what a column INT and a column TEXT of PostgreSQL take, in a database
-- whose encoding is UTF-8.
use Prim.Native.Char.{code}
use grid_runner.Prelude.{
  ℕ, zero, suc, String, ℤ, pos, negsuc, Bool, true, false, not, ◌&&◌, ◌||◌, List, [], ◌∷◌, leb,
  if◌then◌else◌,
}

-- The column is an INT, of four bytes.
abbrev pub max_int : ℕ
max_int = 2147483647

abbrev pub is_int : ℤ → Bool
is_int (pos n) = leb n max_int
is_int (negsuc n) = leb n max_int

-- The characters of a text; none may be zero.
abbrev pub has_zero : String → Bool
has_zero String.[] = false
has_zero (String.◌∷◌ c s) = leb (code c) 0 || has_zero s

-- RFC 3629: the first byte of a character, zero left out; how many bytes follow, and the range of the
-- second one.
abbrev is_lead : ℕ → Bool
is_lead b = (leb 1 b && leb b 127) || (leb 194 b && leb b 244)

abbrev follow : ℕ → ℕ
follow b = if leb b 127 then 0 else if leb b 223 then 1 else if leb b 239 then 2 else 3

abbrev same : ℕ → ℕ → Bool
same b c = leb b c && leb c b

abbrev low : ℕ → ℕ
low b = if same b 224 then 160 else if same b 240 then 144 else 128

abbrev high : ℕ → ℕ
high b = if same b 237 then 159 else if same b 244 then 143 else 191

-- With `left` bytes of a character still to come, the next one in a range.
unfoldable pub is_text_from : ℕ → ℕ → ℕ → List ℕ → Bool
is_text_from zero lo hi [] = true
is_text_from (suc left) lo hi [] = false
is_text_from zero lo hi (b ∷ bs) = is_lead b && is_text_from (follow b) (low b) (high b) bs
is_text_from (suc left) lo hi (b ∷ bs) = leb lo b && (leb b hi && is_text_from left 128 191 bs)

abbrev pub is_text : List ℕ → Bool
is_text bs = is_text_from zero 128 191 bs

-- `exit_code = $4, error = $5`.
abbrev pub takes_result : ℤ → String → Bool
takes_result exit_code error = is_int exit_code && not (has_zero error)

-- `logs = logs || $3, log_seq = $2`.
abbrev pub takes_chunk : ℕ → List ℕ → Bool
takes_chunk seq chunk = leb seq max_int && is_text chunk
