-- ===== src/Protocol/Httputil/Fields.antt =====
-- internal/protocol/httputil/headers.go: numbers and flags in the headers of a response, and the
-- x-ai-* headers of a provider. strconv.ParseFloat is a parameter.
use perf_loadgen.Base.{
  ℕ, ◌+◌, ◌*◌, ◌-◌, ◌&&◌, ◌||◌, Bool, true, false, List, [], ◌∷◌, Option, none, some, Text, Int64,
  Float64, Floats, Duration, codes, is_empty, equal_fold, leb, ltb, nat_beq, if◌then◌else◌, two63,
  neg64, lt64, millisecond, text_beq,
}
use perf_loadgen.Types.{RunResult}

abbrev pub Headers : Type 0
Headers = List (Text × Text)

-- headers.Get: the first value under the name, in any case of its letters.
unfoldable pub header_get : Headers → Text → Text
unfolding equal_fold
header_get [] key = []
header_get ((name, value) ∷ headers) key =
    if equal_fold name key then value else header_get headers key

abbrev pub header_ai_provider : Text
header_ai_provider = codes "x-ai-provider"

abbrev pub header_ai_model : Text
header_ai_model = codes "x-ai-model"

abbrev pub header_ai_upstream_latency : Text
header_ai_upstream_latency = codes "x-ai-upstream-latency-ms"

abbrev pub header_ai_first_token : Text
header_ai_first_token = codes "x-ai-first-token-ms"

abbrev pub header_ai_input_tokens : Text
header_ai_input_tokens = codes "x-ai-input-tokens"

abbrev pub header_ai_output_tokens : Text
header_ai_output_tokens = codes "x-ai-output-tokens"

abbrev pub header_ai_cache_hit : Text
header_ai_cache_hit = codes "x-ai-cache-hit"

-- Decimal digits, at least one once `some_digit` was seen.
unfoldable pub digits_value : Bool → ℕ → Text → Option ℕ
digits_value true acc [] = some acc
digits_value false acc [] = none
digits_value seen acc (c ∷ s) =
    let rest = digits_value true (acc * 10 + (c - 48)) s in
    if leb 48 c && leb c 57 then rest else none

-- strconv.ParseInt in base 10, for 64 bits: the pattern of the number.
abbrev pub positive_int : Option ℕ → Option Int64
positive_int none = none
positive_int (some n) = if ltb n two63 then some n else none

abbrev pub negative_int : Option ℕ → Option Int64
negative_int none = none
negative_int (some n) = if leb n two63 then some (neg64 n) else none

unfoldable pub parse_int : Text → Option Int64
unfolding digits_value
parse_int [] = none
parse_int (c ∷ s) =
    if nat_beq c 43
    then positive_int (digits_value false 0 s)
    else if nat_beq c 45
    then negative_int (digits_value false 0 s)
    else positive_int (digits_value false 0 (c ∷ s))

-- strconv.ParseBool.
abbrev pub spells_true : Text → Bool
spells_true s =
    text_beq s (codes "1")
    || text_beq s (codes "t")
    || text_beq s (codes "T")
    || text_beq s (codes "true")
    || text_beq s (codes "TRUE")
    || text_beq s (codes "True")

abbrev pub spells_false : Text → Bool
spells_false s =
    text_beq s (codes "0")
    || text_beq s (codes "f")
    || text_beq s (codes "F")
    || text_beq s (codes "false")
    || text_beq s (codes "FALSE")
    || text_beq s (codes "False")

unfoldable pub parse_bool : Text → Option Bool
parse_bool s = if spells_true s then some true else if spells_false s then some false else none

abbrev pub int_or_zero : Option Int64 → Int64
int_or_zero none = 0
int_or_zero (some value) = if lt64 value 0 then 0 else value

abbrev pub true_or_false : Option Bool → Bool
true_or_false none = false
true_or_false (some value) = value

unfoldable pub parse_int_header : Headers → Text → Int64
unfolding header_get parse_int
parse_int_header headers key =
    let raw = header_get headers key in if is_empty raw then 0 else int_or_zero (parse_int raw)

unfoldable pub parse_bool_header : Headers → Text → Bool
unfolding header_get parse_bool
parse_bool_header headers key =
    let raw = header_get headers key in
    if is_empty raw then false else true_or_false (parse_bool raw)

unfoldable pub parse_string_header : Headers → Text → Text
unfolding header_get
parse_string_header headers key = header_get headers key

module _ (f : Floats) (parse_float : Text → Option Float64) where
  open f use {of_int, fmul, flt, lit, trunc_int}

  abbrev pub float_or_zero : Option Float64 → Float64
  float_or_zero none = 0
  float_or_zero (some value) = if flt value (lit 0 1) then 0 else value

  unfoldable pub parse_float_header : Headers → Text → Float64
  unfolding header_get
  parse_float_header headers key =
      let raw = header_get headers key in
      if is_empty raw then 0 else float_or_zero (parse_float raw)

  abbrev millis_or_zero : Option Float64 → Duration
  millis_or_zero none = 0
  millis_or_zero (some value) =
      if flt value (lit 0 1) then 0 else trunc_int (fmul value (of_int millisecond))

  unfoldable pub parse_duration_header : Headers → Text → Duration
  unfolding header_get
  parse_duration_header headers key =
      let raw = header_get headers key in
      if is_empty raw then 0 else millis_or_zero (parse_float raw)

  unfoldable pub enrich_ai_headers : Headers → RunResult → Text → Text → RunResult
  unfolding header_get parse_duration_header parse_int_header parse_bool_header
  enrich_ai_headers headers r provider model =
      let cache = header_get headers header_ai_cache_hit in
      record r {
        provider = if is_empty provider then header_get headers header_ai_provider else provider;
        model = if is_empty model then header_get headers header_ai_model else model;
        upstream_latency = parse_duration_header headers header_ai_upstream_latency;
        ttft =
            if nat_beq r.ttft 0
            then parse_duration_header headers header_ai_first_token
            else r.ttft;
        output_tokens =
            if nat_beq r.output_tokens 0
            then parse_int_header headers header_ai_output_tokens
            else r.output_tokens;
        input_tokens =
            if nat_beq r.input_tokens 0
            then parse_int_header headers header_ai_input_tokens
            else r.input_tokens;
        cache_reported = if is_empty cache then r.cache_reported else true;
        cache_hit =
            if is_empty cache then r.cache_hit else parse_bool_header headers header_ai_cache_hit;
      }
