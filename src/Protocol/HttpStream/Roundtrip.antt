-- ===== src/Protocol/HttpStream/Roundtrip.antt =====
-- internal/protocol/httpstream/runner.go: the loop of the format sse finds the events of a body, in
-- their order, and drops what stands behind the last end of a line.
use perf_loadgen.Base.{
  ℕ, zero, suc, ◌%◌, ◌<◌, ◌≤◌, ◌≡◌, refl, sym, ap, subst, ◌∙◌, arith, false, inl, inr, Bool-cases,
  List, [], ◌∷◌, ◌++◌, map, append_assoc, Option, none, some, Text, Int64, Float64, Floats, Time,
  add64, two64, length, length-append, All, byte_count, nat_beq, is_empty, trim_right,
}
use perf_loadgen.Protocol.Httputil.{enrich_ai_headers}
use perf_loadgen.Protocol.Timing.{report_timing}
use perf_loadgen.Protocol.HttpStream.{Runner, Decoder, sse, extract_chunk}
use perf_loadgen.Protocol.HttpStream.Lines.{
  Scan, no_scan, read_string, read_lines, take_sse_line, absorb, is_line_end,
}
use perf_loadgen.Protocol.HttpStream.Consume.{
  Response, consume_stream, summarize, enrich_inference_metrics, format_of,
}
use perf_loadgen.Protocol.HttpStream.Progress.{read_lines-bytes, consume_stream-read}
use perf_loadgen.Protocol.HttpStream.Events.{
  IsPayload, data_line, render_events, quiet, absorb_all, read_line, event_taken,
}

abbrev pub IsOneLine : Text → Type 0
IsOneLine = All (λ c. nat_beq c 10 ≡ false)

last_read : (t : Text) → IsOneLine t → ((read_string t).line ≡ t) × ((read_string t).more ≡ false)
unfolding read_string
last_read [] h = (refl, refl)
last_read (c ∷ t) (h, hs) =
    let (same_line, no_more) = last_read t hs in rw h (ap (◌∷◌ c) same_line, no_more)

module _ (take_line : Scan → Text → Scan) where
  two_reads :
      (n : ℕ) (bytes : Int64) (s : Scan) (l rest : Text)
      → IsOneLine l
      → read_lines take_line (suc (suc n)) bytes s (l ++ (10 ∷ 10 ∷ rest))
        ≡ read_lines take_line n
            (add64 (add64 bytes (byte_count (l ++ 10 ∷ []))) (byte_count (10 ∷ [])))
            (take_line (take_line s (l ++ 10 ∷ [])) (10 ∷ []))
            rest
  unfolding read_lines
  two_reads n bytes s l rest h = rw (read_line l (10 ∷ rest) h) refl

  one_read :
      (n : ℕ) (bytes : Int64) (s : Scan) (t : Text)
      → IsOneLine t
      → read_lines take_line (suc n) bytes s t ≡ some (add64 bytes (byte_count t), take_line s t)
  unfolding read_lines
  one_read n bytes s t h = let (same_line, no_more) = last_read t h in rw (same_line, no_more) refl

data_line-IsOneLine : (p : Text) → IsPayload p → IsOneLine (data_line p)
data_line-IsOneLine p (one_line, _, _) = (refl, (refl, (refl, (refl, (refl, (refl, one_line))))))

two_below : (n k : ℕ) → suc (suc k) < n → (m : ℕ) × (n ≡ suc (suc m)) × (k < m)
two_below zero k h = elim (absurd h) [ ]
  where
    absurd : suc (suc k) < 0 → ⊥
    absurd h = omega arith
two_below (suc zero) k h = elim (absurd h) [ ]
  where
    absurd : suc (suc k) < 1 → ⊥
    absurd h = omega arith
two_below (suc (suc m)) k h = (m, refl, omega arith)

one_below : (n k : ℕ) → k < n → (m : ℕ) × (n ≡ suc m) × (k ≤ m)
one_below zero k h = elim (absurd h) [ ]
  where
    absurd : k < 0 → ⊥
    absurd h = omega arith
one_below (suc m) k h = (m, refl, omega arith)

-- Two reads for an event leave enough fuel for the rest.
enough :
    (n : ℕ) (p rest : Text)
    → length (data_line p ++ (10 ∷ 10 ∷ rest)) < n
    → (m : ℕ) × (n ≡ suc (suc m)) × (length rest < m)
enough n p rest h =
    two_below n (length rest) (omega (arith, length-append (data_line p) (10 ∷ 10 ∷ rest)))

module _ (f : Floats) (decoder : Decoder) (r : Runner) (clock : ℕ → Time) where
  -- All chunks of the events in order, and the rest that no end of a line closes.
  abbrev events_read : Scan → List Text → Text → Scan
  events_read s ps tail =
      take_sse_line f decoder r clock
        (quiet (absorb_all clock s (map (extract_chunk f decoder r) ps))) tail

  read_lines-events :
      (n : ℕ) (bytes : Int64) (s : Scan) (ps : List Text) (tail : Text)
      → All IsPayload ps
      → IsOneLine tail
      → length (render_events ps ++ tail) < n
      → (b : Int64) × (read_lines
            (take_sse_line f decoder r clock)
            n
            bytes
            (quiet s)
            (render_events ps ++ tail)
          ≡ some (b, events_read s ps tail))
  read_lines-events n bytes s [] tail hs ht h =
      let (m, e, _) = one_below n (length tail) h in
      (add64 bytes (byte_count tail), rw (e, one_read take m bytes (quiet s) tail ht) refl)
    where
      take : Scan → Text → Scan
      take = take_sse_line f decoder r clock
  read_lines-events n bytes s (p ∷ ps) tail (hp, hs) ht h =
      let apart = append_assoc (data_line p) (10 ∷ 10 ∷ render_events ps) tail in
      let (m, e, k) = enough n p (render_events ps ++ tail) (subst (λ z. length z < n) apart h) in
      let read = add64 (add64 bytes (byte_count (data_line p ++ 10 ∷ []))) (byte_count (10 ∷ [])) in
      let after = absorb clock s (extract_chunk f decoder r p) in
      let (b, next) = read_lines-events m read after ps tail hs ht k in
      (
        b,
        rw (e, apart)
            (two_reads (take_sse_line f decoder r clock) m bytes (quiet s) (data_line p)
                (render_events ps ++ tail) (data_line-IsOneLine p hp)
              ∙ ap
                  (λ z.
                    read_lines (take_sse_line f decoder r clock) m read z
                      (render_events ps ++ tail))
                  (event_taken f decoder r clock s p hp)
              ∙ next),
      )

  tail_dropped :
      (s : Scan) (tail : Text) → quiet (take_sse_line f decoder r clock (quiet s) tail) ≡ quiet s
  unfolding take_sse_line
  tail_dropped s tail = elim (Bool-cases (is_empty (trim_right is_line_end tail))) [
    | inl e ↦ rw e refl
    | inr e ↦ rw e refl
  ]

  module _ (parse_float : Text → Option Float64) where
    summarize-quiet :
        (resp : Response) (b : Int64) (s : Scan)
        → summarize f parse_float clock resp b (quiet s) ≡ summarize f parse_float clock resp b s
    unfolding summarize enrich_inference_metrics report_timing enrich_ai_headers
    summarize-quiet resp b s = refl

    -- The last line leaves no trace in the result.
    summarize-events_read :
        (resp : Response) (b : Int64) (ps : List Text) (tail : Text)
        → summarize f parse_float clock resp b (events_read no_scan ps tail)
          ≡ summarize f parse_float clock resp b
              (absorb_all clock no_scan (map (extract_chunk f decoder r) ps))
    summarize-events_read resp b ps tail =
        let all_chunks = absorb_all clock no_scan (map (extract_chunk f decoder r) ps) in
        sym (summarize-quiet resp b (events_read no_scan ps tail))
        ∙ ap (λ s. summarize f parse_float clock resp b s) (tail_dropped all_chunks tail)
        ∙ summarize-quiet resp b all_chunks

    body_read :
        (resp : Response) (ps : List Text) (tail : Text)
        → resp.body ≡ render_events ps ++ tail
        → All IsPayload ps
        → IsOneLine tail
        → read_lines (take_sse_line f decoder r clock) (suc (length resp.body)) 0 no_scan resp.body
          ≡ some (byte_count resp.body % two64, events_read no_scan ps tail)
    body_read resp ps tail body hs ht =
        let fuel = suc (length resp.body) in
        let (b, e) =
          read_lines-events fuel 0 no_scan ps tail hs ht
            (subst (λ z. length z < fuel) body (omega arith)) in
        let read =
          subst (λ z. read_lines take fuel 0 no_scan z ≡ some (b, events_read no_scan ps tail))
            (sym body) e in
        read
        ∙ ap (λ n. some (n, events_read no_scan ps tail))
            (read_lines-bytes take resp.body no_scan b (events_read no_scan ps tail) read)
      where
        take : Scan → Text → Scan
        take = take_sse_line f decoder r clock

    -- A stream in the format sse whose body is a list of events and then at most one line that has no
    -- end: the result is the one of the chunks of these events, in their order, and of the bytes of
    -- the body; the last line is dropped.
    pub consume_stream-render_events :
        (resp : Response) (ps : List Text) (tail : Text)
        → format_of f parse_float decoder r clock resp ≡ sse
        → resp.body_error ≡ none
        → resp.body ≡ render_events ps ++ tail
        → All IsPayload ps
        → IsOneLine tail
        → consume_stream f parse_float decoder r clock resp
          ≡ some (
            summarize f parse_float clock resp
                (byte_count resp.body % two64)
                (absorb_all clock no_scan (map (extract_chunk f decoder r) ps)),
            none,
          )
    unfolding summarize
    consume_stream-render_events resp ps tail format ended body hs ht =
        consume_stream-read f parse_float decoder r clock resp (byte_count resp.body % two64)
          (events_read no_scan ps tail) (rw format (body_read resp ps tail body hs ht))
        ∙ rw (format, ended)
            (ap (λ z. some (z, none))
              (summarize-events_read resp (byte_count resp.body % two64) ps tail))
