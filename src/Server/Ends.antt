-- ===== src/Server/Ends.antt =====
-- pkg/server/server.go: the rounds of handleConnection.
use tumbleweed.Base.{
  ℕ, ◌+◌, ◌≤◌, ◌<◌, List, [], length, All, ltb, if◌then◌else◌, Result, ok, err, ◌>>=◌,
}
use tumbleweed.Bytes.{IsByte}
use tumbleweed.Bytes.Stream.{read_full}
use tumbleweed.Protocol.Frame.{Frame}

-- what holds of a value, if there is one
abbrev WhenOk : {A : Type 0} → (A → Type 0) → Result A → Type 0
WhenOk P (ok a) = P a
WhenOk P (err e) = Unit {0}

-- Bytes that were read from a stream of bytes, and what is left of it.
abbrev Reads : ℕ → List ℕ → List ℕ × List ℕ → Type 0
Reads n stream (xs, rest) = All IsByte xs × All IsByte rest × (length rest + n ≤ length stream)

-- A frame that was read: its body consists of bytes, and less of the stream is left.
abbrev FrameReads : List ℕ → Frame × List ℕ → Type 0
FrameReads stream (f, rest) = All IsByte f.body × All IsByte rest × (length rest < length stream)

-- ReadFrame behind the header's fields
abbrev framed : ℕ → ℕ → ℕ → List ℕ → Result (Frame × List ℕ)
framed type req_id size stream =
    if ltb 0 size
    then (read_full size stream >>= λ q.
        ok (record { type = type; req_id = req_id; size = size; body = q.0 }, q.1))
    else ok (record { type = type; req_id = req_id; size = size; body = [] }, stream)
