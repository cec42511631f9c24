-- ===== src/Output/Retest.antt =====
-- internal/output/agent.go: buildRetestCommand, the command line that repeats a run.
use perf_loadgen.Base.{
  ◌&&◌, ◌||◌, not, Bool, true, false, List, [], ◌∷◌, ◌++◌, map, Text, Floats, codes, text_beq,
  equal_fold, join, byte_count, ltb, nat_beq, is_pos64, if◌then◌else◌,
}
use perf_loadgen.Config.{Config}
use perf_loadgen.Output.{Format}

-- strings.ReplaceAll(s, "'", "'\\''").
unfoldable pub shell_quote : Text → Text
shell_quote [] = []
shell_quote (c ∷ s) =
    let rest = shell_quote s in if nat_beq c 39 then 39 ∷ 92 ∷ 39 ∷ 39 ∷ rest else c ∷ rest

unfoldable pub stream_keys_equal : List Text → List Text → Bool
unfolding equal_fold
stream_keys_equal [] [] = true
stream_keys_equal (a ∷ rest) (b ∷ others) = equal_fold a b && stream_keys_equal rest others
stream_keys_equal _ _ = false

abbrev pub usual_text_keys : List Text
usual_text_keys =
    codes "content" ∷ codes "text" ∷ codes "token" ∷ codes "output_text" ∷ codes "delta" ∷ []

abbrev pub usual_token_keys : List Text
usual_token_keys = codes "output_tokens" ∷ codes "completion_tokens" ∷ codes "generated_tokens" ∷ []

abbrev pub given : {A : Type 0} → List A → Bool
given [] = false
given (x ∷ xs) = true

-- A flag with its value in single quotes; the value is quoted by the caller.
abbrev pub in_quotes : Text → Text → Text
in_quotes flag quoted = flag ++ (codes " '" ++ (quoted ++ codes "'"))

abbrev pub bare : Text → Text → Text
bare flag value = flag ++ (32 ∷ value)

abbrev pub when : Bool → Text → Text
when test part = if test then part else []

abbrev pub quoted_header : Text × Text → Text
quoted_header (key, value) = key ++ (58 ∷ shell_quote value)

abbrev pub headers_part : Config → Text
headers_part c =
    when (given c.headers)
      (in_quotes (codes " --headers") (join (codes ",") (map quoted_header c.headers)))

-- The inline body, of which a long one is cut.
abbrev pub retest_body : Format → Text → Text
retest_body fmt body =
    if ltb 4000 (byte_count body) then fmt.slice 3997 body ++ codes "..." else body

abbrev pub body_part : Format → Config → Text
body_part fmt c =
    if given c.body
    then in_quotes (codes " --body") (shell_quote (retest_body fmt c.body))
    else if given c.body_file
    then in_quotes (codes " --body-file") (shell_quote c.body_file)
    else when (given c.payload_dir) (in_quotes (codes " --payload-dir") (shell_quote c.payload_dir))

abbrev pub is_grpc : Config → Bool
is_grpc c = text_beq c.protocol (codes "grpc") || text_beq c.protocol (codes "grpc-stream")

abbrev pub grpc_part : Config → Text
grpc_part c = when (is_grpc c) (
    bare (codes " --proto-service") c.grpc_service
    ++ (bare (codes " --proto-method") c.grpc_method
        ++ (when c.grpc_tls (codes " --grpc-tls")
            ++ when (given c.grpc_token_field)
                (bare (codes " --grpc-token-field") c.grpc_token_field))))

abbrev pub stream_part : Config → Text
stream_part c = when c.streaming (
    codes " --stream"
    ++ (when (given c.stream_format && not (text_beq c.stream_format (codes "auto")))
          (bare (codes " --stream-format") c.stream_format)
        ++ (when
              (given c.stream_done_marker && not (text_beq c.stream_done_marker (codes "[DONE]")))
              (in_quotes (codes " --stream-done-marker") (shell_quote c.stream_done_marker))
            ++ (when
                  (given c.stream_text_keys
                    && not (stream_keys_equal c.stream_text_keys usual_text_keys))
                  (in_quotes (codes " --stream-text-keys") (join (codes ",") c.stream_text_keys))
                ++ when
                    (given c.stream_token_keys
                      && not (stream_keys_equal c.stream_token_keys usual_token_keys))
                    (in_quotes (codes " --stream-token-keys")
                      (join (codes ",") c.stream_token_keys))))))

module _ (fmt : Format) (f : Floats) where
  open f use {flt, lit}

  abbrev pub limits_part : Config → Text
  limits_part c =
      when (flt (lit 0 1) c.model_price_per_1k)
        (bare (codes " --model-price") (fmt.fixed 4 c.model_price_per_1k))
      ++ (bare (codes " --concurrency") (fmt.int c.concurrency)
          ++ (when (is_pos64 c.duration) (bare (codes " --duration") (fmt.duration c.duration))
              ++ (when (is_pos64 c.requests) (bare (codes " --requests") (fmt.int c.requests))
                  ++ bare (codes " --timeout") (fmt.duration c.timeout))))

  abbrev pub outputs_part : Config → Text
  outputs_part c =
      when (given c.output) (in_quotes (codes " --output") (shell_quote c.output))
      ++ (when (given c.agent_context)
            (in_quotes (codes " --agent-context") (shell_quote c.agent_context))
          ++ (when (is_pos64 c.metrics_port)
                (bare (codes " --metrics-port") (fmt.int c.metrics_port))
              ++ (when (flt (lit 0 1) c.qps) (bare (codes " --qps") (fmt.fixed 1 c.qps))
                  ++ when (is_pos64 c.ramp_up)
                      (bare (codes " --ramp-up") (fmt.duration c.ramp_up)))))

  -- The headers in the order of the iteration over their map.
  unfoldable pub build_retest_command : Config → Text
  unfolding shell_quote stream_keys_equal join byte_count
  build_retest_command c =
      codes "./vibeready"
      ++ (in_quotes (codes " --url") (shell_quote c.url)
          ++ (when (given c.method && not (text_beq c.method (codes "GET")))
                (bare (codes " --method") c.method)
              ++ (headers_part c
                  ++ (body_part fmt c
                      ++ (when (given c.protocol && not (text_beq c.protocol (codes "http")))
                            (bare (codes " --protocol") c.protocol)
                          ++ (grpc_part c
                              ++ (when
                                    (text_beq c.protocol (codes "websocket")
                                      && given c.ws_subprotocol)
                                    (bare (codes " --ws-subprotocol") c.ws_subprotocol)
                                  ++ (stream_part c ++ (limits_part c ++ outputs_part c)))))))))
