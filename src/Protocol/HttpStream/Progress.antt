-- ===== src/Protocol/HttpStream/Progress.antt =====
-- internal/protocol/httpstream/runner.go: the loops of consumeStream end, and count every byte.
use perf_loadgen.Base.{
  ℕ, zero, suc, ◌+◌, ◌%◌, ◌<◌, ◌≡◌, refl, sym, ap, ◌∙◌, arith, true, false, Bool-cases,
  Option-cases, inl, inr, [], ◌∷◌, ◌++◌, Option, some, Text, Int64, Float64, Floats, Time, add64,
  two64, length, byte_count,
}
use perf_loadgen.Protocol.Httputil.{Outcome, enrich_ai_headers}
use perf_loadgen.Protocol.Timing.{report_timing}
use perf_loadgen.Protocol.HttpStream.{Runner, Decoder}
use perf_loadgen.Protocol.HttpStream.Lines.{Scan, no_scan, read_string, read_lines}
use perf_loadgen.Protocol.HttpStream.Consume.{
  Response, consume_stream, take_line, format_of, end_stream, summarize, failed_read_result,
  enrich_inference_metrics,
}

byte_count-append : (s t : Text) → byte_count (s ++ t) ≡ byte_count s + byte_count t
unfolding byte_count
byte_count-append [] t = omega arith
byte_count-append (c ∷ s) t = ground (arith, byte_count-append s t)

-- What a read returns and what it leaves are the body.
read_string_lem : (s : Text) → (read_string s).line ++ (read_string s).rest ≡ s
unfolding read_string
read_string_lem [] = refl
read_string_lem (c ∷ s) = ground (arith, read_string_lem s)

shorter : (s : Text) → (read_string s).more ≡ true → length (read_string s).rest < length s
unfolding read_string
shorter [] h = ground arith
shorter (c ∷ s) h = ground (arith, shorter s)

used_up : (s : Text) → (read_string s).more ≡ false → (read_string s).rest ≡ []
unfolding read_string
used_up [] h = refl
used_up (c ∷ s) h = ground (arith, used_up s)

bytes_of_read :
    (s : Text) → byte_count (read_string s).line + byte_count (read_string s).rest ≡ byte_count s
bytes_of_read s =
    sym (byte_count-append (read_string s).line (read_string s).rest)
    ∙ ap byte_count (read_string_lem s)

never : (n : ℕ) → n < 0 → ⊥
never n h = omega arith

total :
    (bytes : Int64) (body : Text)
    → (add64 bytes (byte_count (read_string body).line) + byte_count (read_string body).rest)
        % two64
      ≡ (bytes + byte_count body) % two64
total bytes body = omega (arith, bytes_of_read body)

all_read :
    (bytes : Int64) (body : Text)
    → (read_string body).rest ≡ []
    → add64 bytes (byte_count (read_string body).line) ≡ (bytes + byte_count body) % two64
unfolding byte_count
all_read bytes body e = let h = bytes_of_read body in ground arith

module _ (take_line : Scan → Text → Scan) where
  -- The loop ends, with the bytes of the body added to those it began with.
  abbrev Counted : ℕ → Int64 → Scan → Text → Type 0
  Counted fuel bytes s body =
      (r : Int64 × Scan) × (read_lines take_line fuel bytes s body ≡ some r)
      × (r.0 ≡ (bytes + byte_count body) % two64)

  read_lines-Counted :
      (fuel : ℕ) (bytes : Int64) (s : Scan) (body : Text)
      → length body < fuel
      → Counted fuel bytes s body
  unfolding read_lines
  read_lines-Counted zero bytes s body h = elim (never (length body) h) [ ]
  read_lines-Counted (suc fuel) bytes s body h =
      let read = read_string body in
      let bytes_read = add64 bytes (byte_count read.line) in
      let next = read_lines-Counted fuel bytes_read (take_line s read.line) read.rest in
      elim (Bool-cases read.more) [
        | inl more ↦
            let (r, e, n) = next (omega (arith, shorter body more)) in
            (r, rw (more, read_lines) e, n ∙ total bytes body)
        | inr last ↦ (
          (bytes_read, take_line s read.line),
          rw (last, read_lines) refl,
          all_read bytes body (used_up body last),
        )
      ]

  -- Whatever the loop returns, its bytes are those of the body.
  pub read_lines-bytes :
      (body : Text) (s : Scan) (bytes : Int64) (t : Scan)
      → read_lines take_line (suc (length body)) 0 s body ≡ some (bytes, t)
      → bytes ≡ byte_count body % two64
  read_lines-bytes body s bytes t h =
      let (r, e, n) = read_lines-Counted (suc (length body)) 0 s body (omega arith) in
      let same : some r ≡ some (bytes, t) = sym e ∙ h in omega (arith, n, first_of r bytes t same)
    where
      first_of : (r : Int64 × Scan) (b : Int64) (t : Scan) → some r ≡ some (b, t) → r.0 ≡ b
      first_of r b t h = cc

module _ (f : Floats) (parse_float : Text → Option Float64) (decoder : Decoder) (r : Runner)
    (clock : ℕ → Time) where
  end_stream-bytes :
      (resp : Response) (bytes : Int64) (s : Scan)
      → (end_stream f parse_float decoder r clock
          (format_of f parse_float decoder r clock resp)
          resp
          bytes
          s).0.bytes_read
        ≡ bytes
  unfolding summarize failed_read_result enrich_inference_metrics report_timing enrich_ai_headers
  end_stream-bytes resp bytes s = elim (Option-cases resp.body_error) [
    | inl e ↦ rw e refl
    | inr (problem, e) ↦ rw e refl
  ]

  pub consume_stream-read :
      (resp : Response) (bytes : Int64) (s : Scan)
      → read_lines
          (take_line f parse_float decoder r clock (format_of f parse_float decoder r clock resp))
          (suc (length resp.body))
          0
          no_scan
          resp.body
        ≡ some (bytes, s)
      → consume_stream f parse_float decoder r clock resp
        ≡ some (
            end_stream f parse_float decoder r clock
              (format_of f parse_float decoder r clock resp)
              resp
              bytes
              s)
  unfolding consume_stream
  consume_stream-read resp bytes s e = rw (e, consume_stream) refl

  pub consume_stream-end_stream :
      (resp : Response)
      → (bytes : Int64) × (s : Scan) × (consume_stream f parse_float decoder r clock resp
          ≡ some (
              end_stream f parse_float decoder r clock
                (format_of f parse_float decoder r clock resp)
                resp
                bytes
                s))
        × (bytes ≡ byte_count resp.body % two64)
  consume_stream-end_stream resp =
      let take =
        take_line f parse_float decoder r clock (format_of f parse_float decoder r clock resp) in
      let (read, e, n) =
        read_lines-Counted take (suc (length resp.body)) 0 no_scan resp.body (omega arith) in
      (read.0, read.1, consume_stream-read resp read.0 read.1 e, rw n (omega arith))

  -- Every response is consumed to the end of its body, whatever its lines are, and the result has
  -- the number of bytes of the body (as an int64).
  pub consume_stream_total :
      (resp : Response)
      → (outcome : Outcome) × (consume_stream f parse_float decoder r clock resp ≡ some outcome)
        × (outcome.0.bytes_read ≡ byte_count resp.body % two64)
  consume_stream_total resp =
      let (bytes, s, e, n) = consume_stream-end_stream resp in
      (_, e, end_stream-bytes resp bytes s ∙ n)
