-- ===== src/LogStream.antt =====
-- internal/runner/logstream.go: the buffer between a build's output and the control plane. Its
-- locks make every write and every flush one step; `sent` holds the calls of `send` in order.
pub mod Delivery
use grid_runner.Prelude.{ℕ, suc, Bool, true, false, List, [], ◌∷◌, ◌++◌, if◌then◌else◌}

pub record LogStreamer : Type 0 where
  pub buf : List ℕ
  pub seq : ℕ
  pub closed : Bool
  pub sent : List (ℕ × List ℕ)

abbrev pub new_log_streamer : LogStreamer
new_log_streamer = record { buf = []; seq = 0; closed = false; sent = [] }

unfoldable pub write : List ℕ → LogStreamer → LogStreamer
write p s = record s { buf = s.buf ++ p }

-- `if s.buf.Len() == 0 { return }`, and the send of all that was buffered.
abbrev send_all : List ℕ → LogStreamer → LogStreamer
send_all [] s = s
send_all (b ∷ chunk) s = record s {
  buf = [];
  seq = suc s.seq;
  sent = s.sent ++ (suc s.seq, b ∷ chunk) ∷ [];
}

unfoldable pub flush : LogStreamer → LogStreamer
flush s = send_all s.buf s

-- `sync.Once`.
unfoldable pub close : LogStreamer → LogStreamer
close s = if s.closed then s else flush (record s { closed = true })

-- What happens to a streamer: output of the build, a tick of the goroutine, and `Close`.
pub data Call : Type 0 where
  writes : List ℕ → Call
  tick : Call
  closes : Call

unfoldable pub step : LogStreamer → Call → LogStreamer
step s (writes p) = write p s
step s tick = flush s
step s closes = close s

unfoldable pub run : LogStreamer → List Call → LogStreamer
run s [] = s
run s (c ∷ cs) = run (step s c) cs
