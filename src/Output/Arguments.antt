-- ===== src/Output/Arguments.antt =====
-- internal/output/agent.go: buildRetestCommand against the list of the arguments of a run.
use perf_loadgen.Base.{
  ℕ, ◌≡◌, to_lower, Bool, true, false, not, ◌&&◌, List, [], ◌∷◌, ◌++◌, Text, Int64, Float64, Floats,
  Duration, codes, text_beq, join, All, is_pos64, if◌then◌else◌,
}
use perf_loadgen.Config
use perf_loadgen.Config.{Config}
use perf_loadgen.Cli.Roundtrip.{render_headers}
use perf_loadgen.Output.{Format}
use perf_loadgen.Output.Retest.{
  given, is_grpc, stream_keys_equal, usual_text_keys, usual_token_keys,
}
use perf_loadgen.Output.Shell.{when_given}
use perf_loadgen.Output.Repeat.{IsWord, LacksQuote}

abbrev flag : Text → Text → List Text
flag name value = name ∷ value ∷ []

abbrev body_arguments : Config → Text → List Text
body_arguments c body =
    if given c.body
    then flag (codes "--body") body
    else if given c.body_file
    then flag (codes "--body-file") c.body_file
    else when_given (given c.payload_dir) (flag (codes "--payload-dir") c.payload_dir)

abbrev grpc_arguments : Config → List Text
grpc_arguments c = when_given (Config.is_grpc c) (
    flag (codes "--proto-service") c.grpc_service
    ++ (flag (codes "--proto-method") c.grpc_method
        ++ (when_given c.grpc_tls (codes "--grpc-tls" ∷ [])
            ++ when_given (given c.grpc_token_field)
                (flag (codes "--grpc-token-field") c.grpc_token_field))))

-- Two lists of the same texts, whatever their case.
abbrev same_folded : List Text → List Text → Bool
same_folded [] [] = true
same_folded (a ∷ rest) (b ∷ others) = text_beq (to_lower a) (to_lower b) && same_folded rest others
same_folded _ _ = false

-- The keys of tokens and texts are named where they are not the usual ones.
abbrev names_texts : Config → Bool
names_texts c = not (
    same_folded c.stream_text_keys
      (codes "content" ∷ codes "text" ∷ codes "token" ∷ codes "output_text" ∷ codes "delta" ∷ []))

abbrev names_tokens : Config → Bool
names_tokens c = not (
    same_folded c.stream_token_keys
      (codes "output_tokens" ∷ codes "completion_tokens" ∷ codes "generated_tokens" ∷ []))

abbrev stream_arguments : Config → Bool → Bool → List Text
stream_arguments c texts tokens = when_given c.streaming (
    (codes "--stream" ∷ [])
    ++ (when_given (given c.stream_format && not (text_beq c.stream_format (codes "auto")))
          (flag (codes "--stream-format") c.stream_format)
        ++ (when_given
              (given c.stream_done_marker && not (text_beq c.stream_done_marker (codes "[DONE]")))
              (flag (codes "--stream-done-marker") c.stream_done_marker)
            ++ (when_given (given c.stream_text_keys && texts)
                  (flag (codes "--stream-text-keys") (join (codes ",") c.stream_text_keys))
                ++ when_given (given c.stream_token_keys && tokens)
                    (flag (codes "--stream-token-keys") (join (codes ",") c.stream_token_keys))))))

module _ (fmt : Format) (f : Floats) where
  open f use {flt, lit}

  abbrev limits_arguments : Config → List Text
  limits_arguments c =
      when_given (flt (lit 0 1) c.model_price_per_1k)
        (flag (codes "--model-price") (fmt.fixed 4 c.model_price_per_1k))
      ++ (flag (codes "--concurrency") (fmt.int c.concurrency)
          ++ (when_given (is_pos64 c.duration) (flag (codes "--duration") (fmt.duration c.duration))
              ++ (when_given (is_pos64 c.requests) (flag (codes "--requests") (fmt.int c.requests))
                  ++ flag (codes "--timeout") (fmt.duration c.timeout))))

  abbrev outputs_arguments : Config → List Text
  outputs_arguments c =
      when_given (given c.output) (flag (codes "--output") c.output)
      ++ (when_given (given c.agent_context) (flag (codes "--agent-context") c.agent_context)
          ++ (when_given (is_pos64 c.metrics_port)
                (flag (codes "--metrics-port") (fmt.int c.metrics_port))
              ++ (when_given (flt (lit 0 1) c.qps) (flag (codes "--qps") (fmt.fixed 1 c.qps))
                  ++ when_given (is_pos64 c.ramp_up)
                      (flag (codes "--ramp-up") (fmt.duration c.ramp_up)))))

  abbrev arguments_with : Config → Text → Bool → Bool → List Text
  arguments_with c body texts tokens =
      flag (codes "--url") c.url
      ++ (when_given (given c.method && not (text_beq c.method (codes "GET")))
            (flag (codes "--method") c.method)
          ++ (when_given (given c.headers) (flag (codes "--headers") (render_headers c.headers))
              ++ (body_arguments c body
                  ++ (when_given (given c.protocol && not (text_beq c.protocol (codes "http")))
                        (flag (codes "--protocol") c.protocol)
                      ++ (grpc_arguments c
                          ++ (when_given
                                (text_beq c.protocol (codes "websocket") && given c.ws_subprotocol)
                                (flag (codes "--ws-subprotocol") c.ws_subprotocol)
                              ++ (stream_arguments c texts tokens
                                  ++ (limits_arguments c ++ outputs_arguments c))))))))

  -- The arguments that ask for the run of a configuration, with its whole body.
  abbrev pub arguments_of : Config → List Text
  arguments_of c = arguments_with c c.body (names_texts c) (names_tokens c)

-- The tests of the code for the keys.
abbrev texts_shown : Config → Bool
texts_shown c = not (stream_keys_equal c.stream_text_keys usual_text_keys)

abbrev tokens_shown : Config → Bool
tokens_shown c = not (stream_keys_equal c.stream_token_keys usual_token_keys)

-- The values that the command does not quote, which are words of the shell.
pub record IsUnquoted (c : Config) : Type 0 where
  pub of_method : given c.method ≡ true → IsWord c.method
  pub of_protocol : given c.protocol ≡ true → IsWord c.protocol
  pub of_service : is_grpc c ≡ true → IsWord c.grpc_service
  pub of_method_name : is_grpc c ≡ true → IsWord c.grpc_method
  pub of_token_field : given c.grpc_token_field ≡ true → IsWord c.grpc_token_field
  pub of_subprotocol : given c.ws_subprotocol ≡ true → IsWord c.ws_subprotocol
  pub of_format : given c.stream_format ≡ true → IsWord c.stream_format
  pub of_names : All (λ h. LacksQuote h.0) c.headers
  pub of_text_keys : All LacksQuote c.stream_text_keys
  pub of_token_keys : All LacksQuote c.stream_token_keys

-- Printed numbers and durations are words.
pub record PrintsWords (fmt : Format) : Type 0 where
  pub of_int : (n : Int64) → IsWord (fmt.int n)
  pub of_fixed : (n : ℕ) (x : Float64) → IsWord (fmt.fixed n x)
  pub of_duration : (d : Duration) → IsWord (fmt.duration d)
