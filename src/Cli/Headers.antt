-- ===== src/Cli/Headers.antt =====
-- internal/cli/parse.go: which texts parseHeaders takes, and what it makes of them.
use perf_loadgen.Base.{
  ◌≡◌, ◌↔◌, ◌⊎◌, refl, subst, sym, arith, true, false, Bool-cases, Result-cases, inl, inr, List, [],
  ◌∷◌, Option, none, some, Text, is_empty, is_space, trim_space, split, cut, All, put, text_eq,
  Result, err, ok, IsBlank, is_empty-IsBlank, IsBlank-is_empty, split-All,
}
use perf_loadgen.Cli.{CliError}
use perf_loadgen.Cli.Lists.{parse_header, header_of, parse_pairs, parse_headers}

-- A part of the text that is blank, or has a colon with a key before it that is not blank.
abbrev pub IsHeader : Text → Type 0
IsHeader part =
    (is_empty (trim_space part) ≡ true)
    ⊎ ((kv : Text × Text) × (cut 58 (trim_space part) ≡ some kv)
        × (is_empty (trim_space kv.0) ≡ false))

-- What header_of asks of the cut pair.
abbrev HasKey : Option (Text × Text) → Type 0
HasKey o = (kv : Text × Text) × (o ≡ some kv) × (is_empty (trim_space kv.0) ≡ false)

abbrev pub Succeeds : {A : Type 0} → Result CliError A → Type 0
Succeeds {A} r = (a : A) × (r ≡ ok a)

header_of_sound : (pair : Text) (o : Option (Text × Text)) → Succeeds (header_of pair o) → HasKey o
header_of_sound pair none (h, e) = cc
header_of_sound pair (some kv) (h, e) = elim (Bool-cases (is_empty (trim_space kv.0))) [
  | inl b ↦ elim (blank_fails b) [ ]
  | inr b ↦ (kv, refl, b)
]
  where
    blank_fails : is_empty (trim_space kv.0) ≡ true → ⊥
    blank_fails b = ground arith

header_of_complete :
    (pair : Text) (o : Option (Text × Text)) → HasKey o → Succeeds (header_of pair o)
header_of_complete pair o (kv, e, b) = rw e ((trim_space kv.0, trim_space kv.1), rw b refl)

-- Both branches of the loop's test.
pub stored_on :
    (headers : List (Text × Text)) (part : Text) (parts : List Text) (h : Text × Text)
    → is_empty (trim_space part) ≡ false
    → parse_header (trim_space part) ≡ ok h
    → parse_pairs headers (part ∷ parts) ≡ parse_pairs (put h.0 h.1 headers) parts
unfolding parse_pairs
stored_on headers part parts h full e = rw (full, e) refl

failed_on :
    (headers : List (Text × Text)) (part : Text) (parts : List Text) (problem : CliError)
    → is_empty (trim_space part) ≡ false
    → parse_header (trim_space part) ≡ err problem
    → parse_pairs headers (part ∷ parts) ≡ err problem
unfolding parse_pairs
failed_on headers part parts problem full e = rw (full, e) refl

skipped_on :
    (headers : List (Text × Text)) (part : Text) (parts : List Text)
    → is_empty (trim_space part) ≡ true
    → parse_pairs headers (part ∷ parts) ≡ parse_pairs headers parts
unfolding parse_pairs
skipped_on headers part parts blank = rw blank refl

no_success : {A : Type 0} (problem : CliError) → Succeeds {A = A} (err problem) → ⊥
no_success problem (a, e) = cc

key-Succeeds : (pair : Text) → HasKey (cut 58 pair) → Succeeds (parse_header pair)
unfolding parse_header
key-Succeeds pair h = header_of_complete pair (cut 58 pair) h

has_key : (pair : Text) → Succeeds (parse_header pair) → HasKey (cut 58 pair)
unfolding parse_header
has_key pair h = header_of_sound pair (cut 58 pair) h

pairs_complete :
    (headers : List (Text × Text)) (parts : List Text)
    → All IsHeader parts
    → Succeeds (parse_pairs headers parts)
unfolding parse_pairs
pairs_complete headers [] h = (headers, refl)
pairs_complete headers (part ∷ parts) (inl blank, hs) =
    subst Succeeds (sym (skipped_on headers part parts blank)) (pairs_complete headers parts hs)
pairs_complete headers (part ∷ parts) (inr k, hs) = elim (Bool-cases (is_empty (trim_space part))) [
  | inl blank ↦
      subst Succeeds (sym (skipped_on headers part parts blank)) (pairs_complete headers parts hs)
  | inr full ↦
      let (h, e) = key-Succeeds (trim_space part) k in
      subst Succeeds (sym (stored_on headers part parts h full e))
        (pairs_complete (put h.0 h.1 headers) parts hs)
]

pairs_sound :
    (headers : List (Text × Text)) (parts : List Text)
    → Succeeds (parse_pairs headers parts)
    → All IsHeader parts
pairs_sound headers [] h = tt
pairs_sound headers (part ∷ parts) h = elim (Bool-cases (is_empty (trim_space part))) [
  | inl blank ↦ (
    inl blank,
    pairs_sound headers parts (subst Succeeds (skipped_on headers part parts blank) h),
  )
  | inr full ↦ elim (Result-cases (parse_header (trim_space part))) [
    | inl (problem, e) ↦
        elim (no_success problem
          (subst Succeeds (failed_on headers part parts problem full e) h)) [ ]
    | inr (header, e) ↦ (
      inr (has_key (trim_space part) (header, e)),
      pairs_sound (put header.0 header.1 headers) parts
          (subst Succeeds (stored_on headers part parts header full e) h),
    )
  ]
]

blank_headers : (parts : List Text) → All IsBlank parts → All IsHeader parts
blank_headers [] h = tt
blank_headers (part ∷ parts) (h, hs) = (inl (IsBlank-is_empty part h), blank_headers parts hs)

-- The parts between the commas of a blank text are blank.
blank_parts : (raw : Text) → is_empty (trim_space raw) ≡ true → All IsHeader (split 44 raw)
blank_parts raw h =
    blank_headers (split 44 raw)
      (split-All (λ c. is_space c ≡ true) 44 raw (is_empty-IsBlank raw h))

-- The text is taken exactly when each part between its commas is blank, or has a colon with a key
-- before it that is not blank; otherwise parseHeaders returns an error.
pub parse_headers_iff : (raw : Text) → Succeeds (parse_headers raw) ↔ All IsHeader (split 44 raw)
unfolding parse_headers
parse_headers_iff raw = elim (Bool-cases (is_empty (trim_space raw))) [
  | inl blank ↦ (λ _. blank_parts raw blank, λ _. ([], rw blank refl))
  | inr full ↦ rw full (pairs_sound [] (split 44 raw), pairs_complete [] (split 44 raw))
]
