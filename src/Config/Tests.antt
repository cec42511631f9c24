-- ===== src/Config/Tests.antt =====
-- The tests of `Validate` as they are written, in one record.
use perf_loadgen.Base.{
  ◌<◌, ◌≡◌, refl, ◌↔◌, ◌⊎◌, ◌≢◌, Bool, true, false, not, ◌||◌, [], ◌∷◌, ◌++◌, Option, none, arith,
  nat_beq, length, codes, is_empty, trim_space, le64, lt64, is_pos64, Floats, text_eq,
}
use perf_loadgen.Config.{
  Config, ConfigError, Urls, url_required, no_payload_files, check, one_of, valid_http_method,
  is_grpc, is_http, has_host, has_scheme_host, stream_format_or_auto, validate, check_target,
  check_method, check_numbers, check_formats, check_rates,
}

module _ (f : Floats) (u : Urls) where
  pub record TargetPassed (c : Config) : Type 0 where
    pub grpc_target : is_grpc c ≡ true → has_host (u.parse (codes "grpc://" ++ c.url)) ≡ true
    pub url_target : is_grpc c ≡ false → has_scheme_host (u.parse_request_uri c.url) ≡ true

  pub record MethodPassed (c : Config) : Type 0 where
    pub given : is_http c ≡ true → is_empty (trim_space c.method) ≡ false
    pub known : is_http c ≡ true → valid_http_method c.method ≡ true

  pub record NumbersPassed (c : Config) : Type 0 where
    pub some_workers : is_pos64 c.concurrency ≡ true
    pub duration : le64 0 c.duration ≡ true
    pub requests : le64 0 c.requests ≡ true
    pub bounded : (c.duration ≢ 0) ⊎ (c.requests ≢ 0)
    pub timeout : is_pos64 c.timeout ≡ true

  pub record FormatsPassed (c : Config) : Type 0 where
    pub stream_format :
        one_of
          (stream_format_or_auto c)
          (codes "auto" ∷ codes "sse" ∷ codes "jsonl" ∷ codes "raw" ∷ [])
        ≡ true
    pub protocol :
        one_of c.protocol
          (codes "" ∷ codes "http" ∷ codes "grpc" ∷ codes "grpc-stream" ∷ codes "websocket" ∷ [])
        ≡ true
    pub grpc_names :
        is_grpc c ≡ true → (is_empty c.grpc_service ≡ false) × (is_empty c.grpc_method ≡ false)

  pub record RatesPassed (c : Config) : Type 0 where
    pub qps : f.flt c.qps (f.lit 0 1) ≡ false
    pub ramp_up : le64 0 c.ramp_up ≡ true
    pub ramp_up_fits :
        is_pos64 c.ramp_up ≡ true → is_pos64 c.duration ≡ true → lt64 c.duration c.ramp_up ≡ false
    pub metrics_port : (le64 0 c.metrics_port ≡ true) × (le64 c.metrics_port 65535 ≡ true)

  -- The tests of the code, as they are written.
  pub record IsPassed (c : Config) : Type 0 where
    pub url_given : is_empty (trim_space c.url) ≡ false
    pub target : TargetPassed c
    pub method : MethodPassed c
    pub numbers : NumbersPassed c
    pub formats : FormatsPassed c
    pub rates : RatesPassed c
    pub payloads : (is_empty c.payload_dir ≡ true) ⊎ (0 < length c.payload_files)

  -- A block of tests passes what satisfies `P` on to the rest, and nothing else.
  abbrev Passes : (Config → Option ConfigError → Option ConfigError) → (Config → Type 0) → Type 0
  Passes block P =
      (c : Config) (rest : Option ConfigError) → (block c rest ≡ none) ↔ (P c × (rest ≡ none))

  target_passes : Passes (check_target f u) TargetPassed
  unfolding check_target
  target_passes c rest = (λ h. ground arith, λ v. ground arith)

  method_passes : Passes (check_method f u) MethodPassed
  unfolding check_method
  method_passes c rest = (λ h. ground arith, λ v. ground arith)

  numbers_passes : Passes (check_numbers f u) NumbersPassed
  unfolding check_numbers
  numbers_passes c rest = (λ h. ground arith, λ v. ground arith)

  formats_passes : Passes (check_formats f u) FormatsPassed
  unfolding check_formats
  formats_passes c rest = (λ h. ground arith, λ v. ground arith)

  rates_passes : Passes (check_rates f u) RatesPassed
  unfolding check_rates
  rates_passes c rest = (λ h. ground arith, λ v. ground arith)

  check_passes :
      (b : Bool) (e : ConfigError) (rest : Option ConfigError)
      → (check b e rest ≡ none) ↔ ((b ≡ true) × (rest ≡ none))
  check_passes true e rest = (λ h. (refl, h), λ v. v.1)
  check_passes false e rest = (λ h. cc, λ v. cc (v.0))

  pub validate_sound : (c : Config) → validate f u c ≡ none → IsPassed c
  unfolding validate
  validate_sound c h =
      let (url, h1) = (check_passes (not (is_empty (trim_space c.url))) url_required _).0 h in
      let (target, h2) = (target_passes c _).0 h1 in
      let (method, h3) = (method_passes c _).0 h2 in
      let (numbers, h4) = (numbers_passes c _).0 h3 in
      let (formats, h5) = (formats_passes c _).0 h4 in
      let (rates, h6) = (rates_passes c _).0 h5 in
      let (payloads, _) =
        (check_passes (is_empty c.payload_dir || not (nat_beq (length c.payload_files) 0))
            no_payload_files none).0
          h6 in
      record {
        url_given = ground (arith, url);
        target = target;
        method = method;
        numbers = numbers;
        formats = formats;
        rates = rates;
        payloads = ground (arith, payloads);
      }

  pub validate_complete : (c : Config) → IsPassed c → validate f u c ≡ none
  unfolding validate
  validate_complete c v = (check_passes _ _ _).1 (
    ground (arith, v.url_given),
    (target_passes c _).1 (
      v.target,
      (method_passes c _).1 (
        v.method,
        (numbers_passes c _).1 (
          v.numbers,
          (formats_passes c _).1 (
            v.formats,
            (rates_passes c _).1
                (v.rates, (check_passes _ _ _).1 (ground (arith, v.payloads), refl)),
          ),
        ),
      ),
    ),
  )
