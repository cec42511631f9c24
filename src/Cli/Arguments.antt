-- ===== src/Cli/Arguments.antt =====
-- internal/cli: how the arguments are shared out, and what Parse returns.
use perf_loadgen.Base.{
  ◌≡◌, refl, subst, ◌∙◌, false, List, [], ◌∷◌, ◌++◌, none, Text, Floats, codes, text_beq,
  has_prefix, trim_prefix, All, ok, both_succeed, arith,
}
use perf_loadgen.Config.{Config, Urls, validate}
use perf_loadgen.Config.Validity.{IsValid, validate_iff}
use perf_loadgen.Config.Files.{Host}
use perf_loadgen.Cli.{bad_flags}
use perf_loadgen.Cli.Parse.{
  FlagParser, extract_config, with_argument, parse, load_base, over_base, config_of, checked,
  check_sources, load_payload_source, or_error,
}
use perf_loadgen.Cli.Lists.{parse_headers}

-- An argument that is not --config, in either form.
abbrev pub IsOther : Text → Type 0
IsOther a = (has_prefix a (codes "--config=") ≡ false) × (text_beq a (codes "--config") ≡ false)

other_first :
    (path x : Text) (args : List Text)
    → IsOther x
    → extract_config path (x ∷ args) ≡ with_argument x (extract_config path args)
unfolding extract_config
other_first path x [] (h, k) = rw (h, k) refl
other_first path x (v ∷ args) (h, k) = rw (h, k) refl

others_kept :
    (path : Text) (args : List Text) → All IsOther args → extract_config path args ≡ ok (path, args)
unfolding extract_config
others_kept path [] h = refl
others_kept path (a ∷ args) (h, hs) = other_first path a args h ∙ rw (others_kept path args hs) refl

after_others :
    (path p : Text) (xs rest ys : List Text)
    → All IsOther xs
    → extract_config path rest ≡ ok (p, ys)
    → extract_config path (xs ++ rest) ≡ ok (p, xs ++ ys)
after_others path p [] rest ys h e = e
after_others path p (x ∷ xs) rest ys (h, hs) e =
    other_first path x (xs ++ rest) h ∙ rw (after_others path p xs rest ys hs e) refl

two_arguments :
    (path p : Text) (ys : List Text)
    → All IsOther ys
    → extract_config path (codes "--config" ∷ p ∷ ys) ≡ ok (p, ys)
unfolding extract_config has_prefix
two_arguments path p ys h = others_kept p ys h

one_argument :
    (path p : Text) (ys : List Text)
    → All IsOther ys
    → extract_config path ((codes "--config=" ++ p) ∷ ys) ≡ ok (p, ys)
unfolding extract_config has_prefix trim_prefix
one_argument path p [] h = refl
one_argument path p (y ∷ ys) h = others_kept p (y ∷ ys) h

-- One --config among other arguments, in either form: its path is found, and the other arguments are
-- left in their order.
pub extract_config-config :
    (p : Text) (xs ys : List Text)
    → All IsOther xs
    → All IsOther ys
    → (extract_config [] (xs ++ (codes "--config" ∷ p ∷ ys)) ≡ ok (p, xs ++ ys))
      × (extract_config [] (xs ++ ((codes "--config=" ++ p) ∷ ys)) ≡ ok (p, xs ++ ys))
extract_config-config p xs ys h k = (
  after_others [] p xs (codes "--config" ∷ p ∷ ys) ys h (two_arguments [] p ys k),
  after_others [] p xs ((codes "--config=" ++ p) ∷ ys) ys h (one_argument [] p ys k),
)

module _ (host : Host) (f : Floats) (u : Urls) (flags : FlagParser) where
  checked_ok :
      (d c : Config)
      → checked host f u flags d (validate f u d) ≡ ok c
      → (d ≡ c) × (validate f u d ≡ none)
  checked_ok d c h = ground arith

  checked-IsValid :
      (d c : Config) → checked host f u flags d (validate f u d) ≡ ok c → IsValid f u c
  checked-IsValid d c h =
      let (same, passed) = checked_ok d c h in
      (validate_iff f u c).0 (subst (λ x. validate f u x ≡ none) same passed)

  -- A configuration that Parse returns passes every test of Validate, whatever the flags, the
  -- file of --config and the payloads are.
  pub parse-IsValid :
      (args : List Text) (c : Config) → parse host f u flags args ≡ ok c → IsValid f u c
  unfolding parse
  parse-IsValid args c h =
      let (extracted, h1, _) = both_succeed (extract_config [] args) _ h in
      let (base, h2, _) = both_succeed (load_base host f u flags extracted.0) _ h1 in
      let (given, h3, _) = both_succeed (or_error bad_flags (flags extracted.1)) _ h2 in
      let (_, h4, _) = both_succeed (check_sources given.0) _ h3 in
      let (headers, h5, _) = both_succeed (parse_headers given.0.headers) _ h4 in
      let (payload, h6, _) =
        both_succeed (load_payload_source host given.0.body given.0.body_file given.0.payload_dir) _
          h5 in
      checked-IsValid
        (over_base host f u flags extracted.0 base given.1 (config_of given.0 headers payload)) c h6
