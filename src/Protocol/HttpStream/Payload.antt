-- ===== src/Protocol/HttpStream/Payload.antt =====
-- internal/protocol/httpstream/runner.go: what a decoded chunk says: its text, its number of tokens,
-- and whether it ends the stream.
use perf_loadgen.Base.{
  Bool, false, not, ◌&&◌, ◌||◌, List, [], ◌∷◌, ◌++◌, map, Option, none, some, Text, Int64, Floats,
  codes, text_beq, is_empty, trim_space, to_lower, equal_fold, is_pos64, if◌then◌else◌,
}
use perf_loadgen.Protocol.Json.{
  Json, array, object, Items, no_items, item, Fields, no_fields, field, as_string, as_number,
  is_true,
}

-- A set of keys, in lower case.
unfoldable pub normalize_keys : List Text → List Text
unfolding to_lower
normalize_keys = map to_lower

abbrev pub elem : Text → List Text → Bool
elem k [] = false
elem k (j ∷ js) = text_beq k j || elem k js

-- The words of a text that is more than white space.
abbrev pub visible : Option Text → List Text
visible none = []
visible (some s) = if is_empty (trim_space s) then [] else s ∷ []

-- Under a preferred key a visible text is taken, and anything else is searched.
abbrev pub or_nested : List Text → List Text → List Text
or_nested [] nested = nested
or_nested (s ∷ ss) nested = s ∷ ss

unfoldable mutual
  unfolding to_lower trim_space

  pub collect_preferred_text : List Text → Json → List Text
  collect_preferred_text keys (object fields) = text_of_fields keys fields
  collect_preferred_text keys (array items) = text_of_items keys items
  collect_preferred_text keys _ = []

  pub text_of_items : List Text → Items → List Text
  text_of_items keys no_items = []
  text_of_items keys (item v items) = collect_preferred_text keys v ++ text_of_items keys items

  pub text_of_fields : List Text → Fields → List Text
  text_of_fields keys no_fields = []
  text_of_fields keys (field k v fields) =
      or_nested (if elem (to_lower k) keys then visible (as_string v) else [])
        (collect_preferred_text keys v)
      ++ text_of_fields keys fields

module _ (f : Floats) where
  -- The number under a preferred key, then what was found deeper, if positive, then the rest.
  abbrev pub tokens_or : Option Int64 → Int64 → Int64 → Int64
  tokens_or (some n) nested rest = n
  tokens_or none nested rest = if is_pos64 nested then nested else rest

  abbrev pub as_int : Json → Option Int64
  as_int v = elim (as_number v) [ none ↦ none | some x ↦ some (f.trunc_int x) ]

  unfoldable mutual
    unfolding to_lower

    pub collect_preferred_tokens : List Text → Json → Int64
    collect_preferred_tokens keys (object fields) = tokens_of_fields keys fields
    collect_preferred_tokens keys (array items) = tokens_of_items keys items
    collect_preferred_tokens keys _ = 0

    pub tokens_of_items : List Text → Items → Int64
    tokens_of_items keys no_items = 0
    tokens_of_items keys (item v items) =
        tokens_or none (collect_preferred_tokens keys v) (tokens_of_items keys items)

    pub tokens_of_fields : List Text → Fields → Int64
    tokens_of_fields keys no_fields = 0
    tokens_of_fields keys (field k v fields) =
        tokens_or (if elem (to_lower k) keys then as_int v else none)
          (collect_preferred_tokens keys v) (tokens_of_fields keys fields)

-- A field that ends the stream by itself.
abbrev pub has_text : Option Text → Bool
has_text none = false
has_text (some s) = not (is_empty (trim_space s))

abbrev pub says_marker : Text → Option Text → Bool
says_marker marker none = false
says_marker marker (some s) = equal_fold s marker

abbrev pub signals : Text → Text → Json → Bool
signals marker lower_key v =
    (text_beq lower_key (codes "done") && is_true v)
    || ((text_beq lower_key (codes "finish_reason") || text_beq lower_key (codes "stop_reason"))
        && has_text (as_string v))
    || (text_beq lower_key (codes "event") && says_marker marker (as_string v))

unfoldable mutual
  unfolding to_lower trim_space equal_fold

  pub detect_done : Text → Json → Bool
  detect_done marker (object fields) = done_in_fields marker fields
  detect_done marker (array items) = done_in_items marker items
  detect_done marker _ = false

  pub done_in_items : Text → Items → Bool
  done_in_items marker no_items = false
  done_in_items marker (item v items) = detect_done marker v || done_in_items marker items

  pub done_in_fields : Text → Fields → Bool
  done_in_fields marker no_fields = false
  done_in_fields marker (field k v fields) =
      signals marker (to_lower k) v || detect_done marker v || done_in_fields marker fields
