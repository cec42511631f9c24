-- ===== src/Protocol/HttpStream/Events.antt =====
-- internal/protocol/httpstream/runner.go: a body of well-formed events, and what the loop of the
-- format sse makes of it.
use perf_loadgen.Base.{
  ℕ, ◌≡◌, refl, ap, ◌∙◌, arith, true, false, Bool-cases, inl, inr, List, [], ◌∷◌, ◌++◌, append-nil,
  reverse, reverse-append, none, some, Text, Floats, Time, All, codes, nat_beq, is_empty, text_beq,
  is_space, trim_left, trim_right, trim_space, has_prefix, trim_prefix, if◌then◌else◌, Ends-kept,
  Ends-append, Starts-weaken, trimmed-Ends,
}
use perf_loadgen.Protocol.HttpStream.{
  Runner, Decoder, ParsedChunk, extract_chunk, extract_sse_chunk, event_data,
}
use perf_loadgen.Protocol.HttpStream.Lines.{Scan, read_string, absorb, take_sse_line, is_line_end}

-- A payload of one line, as TrimSpace leaves it.
abbrev pub IsPayload : Text → Type 0
IsPayload p = All (λ c. nat_beq c 10 ≡ false) p × (trim_space p ≡ p) × (is_empty p ≡ false)

abbrev pub data_line : Text → Text
data_line p = codes "data: " ++ p

-- Each event is one line of data and an empty line.
abbrev pub render_events : List Text → Text
render_events [] = []
render_events (p ∷ ps) = data_line p ++ (10 ∷ 10 ∷ render_events ps)

-- The chunks one after another.
abbrev pub absorb_all : (ℕ → Time) → Scan → List ParsedChunk → Scan
absorb_all clock s [] = s
absorb_all clock s (chunk ∷ chunks) = absorb_all clock (absorb clock s chunk) chunks

-- The state between two events.
abbrev pub quiet : Scan → Scan
quiet s = record s { event_lines = [] }

pub read_line :
    (l rest : Text)
    → All (λ c. nat_beq c 10 ≡ false) l
    → read_string (l ++ (10 ∷ rest)) ≡ record { line = l ++ 10 ∷ []; more = true; rest = rest }
unfolding read_string
read_line [] rest h = refl
read_line (c ∷ l) rest (h, hs) = rw (h, read_line l rest hs) refl

line_end_is_space : (c : ℕ) → is_space c ≡ false → is_line_end c ≡ false
unfolding is_space
line_end_is_space c h = ground arith

-- Trimming the end of a line of data gives the line.
line_kept : (p : Text) → IsPayload p → trim_right is_line_end (data_line p) ≡ data_line p
line_kept p (one_line, trimmed, full) = Ends-kept is_line_end (data_line p) (
    Ends-append is_line_end (codes "data: ") p full
      (Starts-weaken is_space is_line_end _ line_end_is_space (trimmed-Ends p trimmed)))

trim_right-end : (s : Text) → trim_right is_line_end (s ++ 10 ∷ []) ≡ trim_right is_line_end s
unfolding trim_right trim_left
trim_right-end s = ap (λ z. reverse (trim_left is_line_end z)) (reverse-append s (10 ∷ []))

space_dropped : (p : Text) → trim_space (32 ∷ p) ≡ trim_space p
unfolding trim_space trim_left is_space
space_dropped p = refl

event_data-line :
    (marker p : Text)
    → IsPayload p
    → event_data marker (data_line p ∷ []) ≡ (if text_beq p marker then none else some p)
unfolding event_data has_prefix trim_prefix
event_data-line marker p (one_line, trimmed, full) =
    rw (space_dropped p, trimmed, append-nil p) refl

module _ (f : Floats) (decoder : Decoder) (r : Runner) (clock : ℕ → Time) where
  -- One event is read as the chunk of its payload.
  extract_sse_chunk-line :
      (p : Text)
      → IsPayload p
      → extract_sse_chunk f decoder r (data_line p ∷ []) ≡ extract_chunk f decoder r p
  unfolding extract_sse_chunk
  extract_sse_chunk-line p (one_line, trimmed, full) =
      elim (Bool-cases (text_beq p r.done_marker)) [
        | inl e ↦ rw (by_marker, e) refl
        | inr e ↦ rw (by_marker, e, full) (rw e refl)
      ]
    where
      by_marker :
          event_data r.done_marker (data_line p ∷ [])
          ≡ (if text_beq p r.done_marker then none else some p)
      by_marker = event_data-line r.done_marker p (one_line, trimmed, full)

  data_taken :
      (s : Scan) (p : Text)
      → IsPayload p
      → take_sse_line f decoder r clock s (data_line p ++ 10 ∷ [])
        ≡ record s { event_lines = s.event_lines ++ data_line p ∷ [] }
  unfolding take_sse_line
  data_taken s p h = rw (trim_right-end (data_line p) ∙ line_kept p h) refl

  -- The two lines of an event, where no event has begun.
  pub event_taken :
      (s : Scan) (p : Text)
      → IsPayload p
      → take_sse_line f decoder r clock
          (take_sse_line f decoder r clock (quiet s) (data_line p ++ 10 ∷ []))
          (10 ∷ [])
        ≡ quiet (absorb clock s (extract_chunk f decoder r p))
  unfolding take_sse_line absorb trim_right
  event_taken s p h =
      ap (λ z. take_sse_line f decoder r clock z (10 ∷ [])) (data_taken (quiet s) p h)
      ∙ rw (extract_sse_chunk-line p h) refl
