-- ===== src/Cli/Lists.antt =====
-- internal/cli/parse.go and master.go: lists of values in one argument.
use perf_loadgen.Base.{
  ◌≡◌, refl, ap, Bool-cases, inl, inr, List, [], ◌∷◌, map, Text, split, trim_space, to_lower,
  is_empty, put, cut, if◌then◌else◌, Option, none, some, Result, ok, err, text_eq,
}
use perf_loadgen.Cli.{CliError, no_colon, empty_key}

-- The items of a list that are not blank, trimmed.
unfoldable pub items : List Text → List Text
unfolding trim_space
items [] = []
items (part ∷ parts) =
    let rest = items parts in
    let item = trim_space part in if is_empty item then rest else item ∷ rest

unfoldable pub split_csv : Text → List Text
unfolding items split trim_space
split_csv raw = if is_empty (trim_space raw) then [] else items (split 44 raw)

abbrev pub lower_items : List Text → List Text
lower_items [] = []
lower_items (part ∷ parts) =
    let rest = lower_items parts in
    let item = trim_space part in if is_empty item then rest else to_lower item ∷ rest

unfoldable pub parse_csv_list : Text → List Text
unfolding split trim_space to_lower
parse_csv_list raw = if is_empty (trim_space raw) then [] else lower_items (split 44 raw)

lower_items-items : (parts : List Text) → lower_items parts ≡ map to_lower (items parts)
unfolding items
lower_items-items [] = refl
lower_items-items (part ∷ parts) = elim (Bool-cases (is_empty (trim_space part))) [
  | inl e ↦ rw e (lower_items-items parts)
  | inr e ↦ rw e (ap (◌∷◌ (to_lower (trim_space part))) (lower_items-items parts))
]

-- The two loops differ in the case of the letters.
pub parse_csv_list-split_csv : (raw : Text) → parse_csv_list raw ≡ map to_lower (split_csv raw)
unfolding parse_csv_list split_csv
parse_csv_list-split_csv raw = elim (Bool-cases (is_empty (trim_space raw))) [
  | inl e ↦ rw e refl
  | inr e ↦ rw e (lower_items-items (split 44 raw))
]

-- One `key:value`, where the pair is not blank.
abbrev pub header_of : Text → Option (Text × Text) → Result CliError (Text × Text)
header_of pair none = err (no_colon pair)
header_of pair (some (before, after)) =
    let key = trim_space before in
    if is_empty key then err (empty_key pair) else ok (key, trim_space after)

unfoldable pub parse_header : Text → Result CliError (Text × Text)
unfolding cut trim_space
parse_header pair = header_of pair (cut 58 pair)

-- The rest of the loop, with the map that it was given.
abbrev pub stored : Result CliError (Text × Text) → List (Text × Text) → List (Text × Text)
stored (err e) headers = headers
stored (ok (key, value)) headers = put key value headers

abbrev pub unless :
    Result CliError (Text × Text)
    → Result CliError (List (Text × Text))
    → Result CliError (List (Text × Text))
unless (err e) rest = err e
unless (ok header) rest = rest

unfoldable pub parse_pairs : List (Text × Text) → List Text → Result CliError (List (Text × Text))
unfolding parse_header put trim_space
parse_pairs headers [] = ok headers
parse_pairs headers (part ∷ parts) =
    let pair = trim_space part in
    let skipped = parse_pairs headers parts in
    let next = parse_pairs (stored (parse_header pair) headers) parts in
    if is_empty pair then skipped else unless (parse_header pair) next

unfoldable pub parse_headers : Text → Result CliError (List (Text × Text))
unfolding parse_pairs split trim_space
parse_headers raw = if is_empty (trim_space raw) then ok [] else parse_pairs [] (split 44 raw)
