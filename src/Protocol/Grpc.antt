-- ===== src/Protocol/Grpc.antt =====
-- internal/protocol/grpc: calls with dynamic messages. Connections, reflection, protobuf messages
-- and the two codecs of JSON are parameters; a message is of the type `Message`.
pub mod Unary
pub mod Stream
pub mod Errors
pub mod Chunks
use perf_loadgen.Base.{
  ℕ, Bool, true, false, ◌&&◌, ◌||◌, ◌++◌, Option, none, some, Text, Int64, Floats, Duration, codes,
  is_empty, nat_beq, text_beq, to_lower, if◌then◌else◌, Result, err, ok,
}
use perf_loadgen.Types.{ErrorCategory, category_timeout, category_network, category_unknown}
use perf_loadgen.Protocol.Json.{
  Json, null, boolean, number, string, array, object, Items, Fields, no_fields, field, as_number,
}
use perf_loadgen.Protocol.Httputil.{GoError, classify_request_error, wrap_error}

pub record Options : Type 0 where
  pub target : Text
  pub timeout : Duration
  pub tls : Bool
  pub service_name : Text
  pub method_name : Text
  pub token_field : Text

unfoldable pub full_method : Options → Text
full_method o =
    if is_empty o.service_name || is_empty o.method_name
    then codes ""
    else codes "/" ++ o.service_name ++ codes "/" ++ o.method_name

-- An error of a call, with the code of its status, if status.FromError finds one.
pub record CallError : Type 0 where
  pub cause : GoError
  pub code : Option ℕ

-- codes.Canceled, DeadlineExceeded, ResourceExhausted, Aborted and Unavailable.
abbrev pub category_of_code : ℕ → ErrorCategory
category_of_code code =
    if nat_beq code 4 || nat_beq code 1
    then category_timeout
    else if nat_beq code 14 || nat_beq code 10 || nat_beq code 8
    then category_network
    else category_unknown

unfoldable pub classify_grpc_error : CallError → ErrorCategory
unfolding classify_request_error
classify_grpc_error e = elim e.code [
  | none ↦ classify_request_error (some e.cause)
  | some code ↦ category_of_code code
]

-- dynamicpb.NewMessage of the input, and protojson.Unmarshal into it.
pub record Codec (Message : Type 0) : Type 0 where
  pub new_message : Message
  pub from_json : Text → Result GoError Message
  -- protojson.Marshal, `none` where it fails, and proto.Size.
  pub marshal : Message → Option Text
  pub size : Message → Int64
  -- json.Unmarshal into a map[string]any.
  pub unmarshal : Text → Option Fields

module _ {Message : Type 0} (codec : Codec Message) where
  abbrev pub wrapped : Result GoError Message → Result GoError Message
  wrapped (ok message) = ok message
  wrapped (err e) = err (wrap_error (codes "unmarshal json body to proto: ") e)

  unfoldable pub build_input : Text → Result GoError Message
  build_input body = if is_empty body then ok codec.new_message else wrapped (codec.from_json body)

  unfoldable pub to_json : Message → Text
  to_json message = elim (codec.marshal message) [ none ↦ codes "" | some encoded ↦ encoded ]

module _ (f : Floats) where
  -- The number under the key, then a number found deeper, if not zero, then the rest.
  abbrev pub int_or : Option Int64 → Int64 → Int64 → Int64
  int_or (some n) nested rest = n
  int_or none nested rest = if nat_beq nested 0 then rest else nested

  abbrev pub as_int : Json → Option Int64
  as_int v = elim (as_number v) [ none ↦ none | some x ↦ some (f.trunc_int x) ]

  unfoldable mutual
    unfolding to_lower

    pub find_int : Text → Json → Int64
    find_int key (object fields) = find_in_fields key fields
    find_int key _ = 0

    pub find_in_fields : Text → Fields → Int64
    find_in_fields key no_fields = 0
    find_in_fields key (field k v fields) =
        int_or (if text_beq (to_lower k) key then as_int v else none) (find_int key v)
          (find_in_fields key fields)

  unfoldable pub extract_token_count : {Message : Type 0} → Codec Message → Text → Text → Int64
  unfolding find_int to_lower
  extract_token_count codec json token_field =
      if is_empty token_field || is_empty json then 0 else elim (codec.unmarshal json) [
        | none ↦ 0
        | some fields ↦ find_in_fields (to_lower token_field) fields
      ]
