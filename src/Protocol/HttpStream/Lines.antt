-- ===== src/Protocol/HttpStream/Lines.antt =====
-- internal/protocol/httpstream/runner.go: the loops of consumeStream over the lines of a body.
use perf_loadgen.Base.{
  ℕ, zero, suc, Bool, true, false, ◌||◌, List, [], ◌∷◌, ◌++◌, Option, none, some, Text, Int64, Time,
  Floats, add64, is_pos64, is_empty, nat_beq, trim_space, trim_right, byte_count, if◌then◌else◌,
}
use perf_loadgen.Protocol.Timing.{Timing, no_chunks, arrive}
use perf_loadgen.Protocol.HttpStream.{
  Runner, Decoder, ParsedChunk, extract_chunk, extract_sse_chunk,
}

-- reader.ReadString('\n'): the line with its end, and whether it has one. Where it has none, the
-- body is used up and the call returns the error that ended it.
pub record Read : Type 0 where
  pub line : Text
  pub more : Bool
  pub rest : Text

unfoldable pub read_string : Text → Read
read_string [] = record { line = []; more = false; rest = [] }
read_string (c ∷ s) =
    let next = read_string s in
    if nat_beq c 10
    then record { line = c ∷ []; more = true; rest = s }
    else record { line = c ∷ next.line; more = next.more; rest = next.rest }

-- The variables of the loops, but for `bytesRead`; `clock` gives the readings of time.Now in turn.
pub record Scan : Type 0 where
  pub timing : Timing
  pub text : Text
  pub saw_done : Bool
  pub output_tokens : Int64
  pub event_lines : List Text
  pub readings : ℕ

abbrev pub no_scan : Scan
no_scan = record {
  timing = no_chunks;
  text = [];
  saw_done = false;
  output_tokens = 0;
  event_lines = [];
  readings = 1;
}

unfoldable pub absorb : (ℕ → Time) → Scan → ParsedChunk → Scan
unfolding arrive
absorb clock s chunk =
    let silent = is_empty chunk.text in
    record s {
      saw_done = s.saw_done || chunk.done;
      timing = if silent then s.timing else arrive s.timing (clock s.readings);
      readings = if silent then s.readings else suc s.readings;
      text = if silent then s.text else s.text ++ chunk.text ++ 32 ∷ [];
      output_tokens =
          if is_pos64 chunk.tokens then add64 s.output_tokens chunk.tokens else s.output_tokens;
    }

abbrev pub is_line_end : ℕ → Bool
is_line_end c = nat_beq c 13 || nat_beq c 10

-- A loop that hands every line to `take_line` until the body ends, and adds up the bytes.
unfoldable pub read_lines : (Scan → Text → Scan) → ℕ → Int64 → Scan → Text → Option (Int64 × Scan)
unfolding read_string byte_count
read_lines take_line zero bytes s body = none
read_lines take_line (suc fuel) bytes s body =
    let read = read_string body in
    let bytes_read = add64 bytes (byte_count read.line) in
    let taken = take_line s read.line in
    let next = read_lines take_line fuel bytes_read taken read.rest in
    if read.more then next else some (bytes_read, taken)

module _ (f : Floats) (decoder : Decoder) (r : Runner) (clock : ℕ → Time) where
  abbrev pub end_event : Scan → List Text → Scan
  end_event s [] = s
  end_event s (l ∷ ls) = record (absorb clock s (extract_sse_chunk f decoder r (l ∷ ls))) {
    event_lines = [];
  }

  -- A line of the format sse.
  unfoldable pub take_sse_line : Scan → Text → Scan
  unfolding absorb extract_sse_chunk trim_right
  take_sse_line s text =
      let line = trim_right is_line_end text in
      if is_empty line
      then end_event s s.event_lines
      else record s { event_lines = s.event_lines ++ line ∷ [] }

  -- A line of the formats jsonl and raw.
  unfoldable pub take_json_line : Scan → Text → Scan
  unfolding absorb extract_chunk trim_space
  take_json_line s text =
      let trimmed = trim_space text in
      if is_empty trimmed then s else absorb clock s (extract_chunk f decoder r trimmed)
