-- ===== src/Config/Validity.antt =====
-- What a configuration satisfies that `Validate` lets pass, and nothing else does.
use perf_loadgen.Base.{
  ◌≤◌, ◌%◌, ◌≡◌, refl, inl, inr, some, Text, to_upper, two64, ◌↔◌, ◌⊎◌, ◌≢◌, true, false, [], ◌∷◌,
  ◌++◌, none, codes, trim_space, Floats, text_eq,
}
use perf_loadgen.Config.{Config, Urls, valid_http_method, is_grpc, validate}
use perf_loadgen.Config.Readings.{
  AnyOf, IsGrpc, IsHttp, IsNonNegative, IsPositive, empty_iff, files_iff, fits_iff, given_iff,
  IsGrpc-iff, host_iff, IsHttp-iff, http_methods, IsNonNegative-iff, not_false, not_true,
  one_of_iff, or_auto_iff, port_iff, IsPositive-iff, protocols, scheme_host_iff, stream_formats,
}
use perf_loadgen.Config.Tests.{IsPassed, validate_sound, validate_complete}

-- A configuration that Validate lets pass: a target with a host (and a scheme, but for gRPC), a method
-- of HTTP where HTTP is used, workers, a limit that is not negative, a timeout, a known protocol and
-- stream format, the names that gRPC needs, a rate and a ramp-up that are not negative, a ramp-up
-- within the duration, a port number, and files where a payload directory is named.
pub record IsValid (f : Floats) (u : Urls) (c : Config) : Type 0 where
  pub url_given : trim_space c.url ≢ []
  pub grpc_target :
      IsGrpc c
      → (scheme : Text) × (host : Text) × (u.parse (codes "grpc://" ++ c.url) ≡ some (scheme, host))
        × (host ≢ [])
  pub url_target :
      ¬ IsGrpc c
      → (scheme : Text) × (host : Text) × (u.parse_request_uri c.url ≡ some (scheme, host))
        × (scheme ≢ [])
        × (host ≢ [])
  pub method : IsHttp c → (trim_space c.method ≢ []) × AnyOf (to_upper c.method) http_methods
  pub some_workers : IsPositive c.concurrency
  pub duration : IsNonNegative c.duration
  pub requests : IsNonNegative c.requests
  pub bounded : (c.duration ≢ 0) ⊎ (c.requests ≢ 0)
  pub timeout : IsPositive c.timeout
  pub stream_format : AnyOf c.stream_format ([] ∷ stream_formats)
  pub protocol : AnyOf c.protocol protocols
  pub grpc_names : IsGrpc c → (c.grpc_service ≢ []) × (c.grpc_method ≢ [])
  pub qps : f.flt c.qps (f.lit 0 1) ≡ false
  pub ramp_up : IsNonNegative c.ramp_up
  pub ramp_up_fits :
      IsPositive c.ramp_up → IsPositive c.duration → c.ramp_up % two64 ≤ c.duration % two64
  pub metrics_port : c.metrics_port % two64 ≤ 65535
  pub payloads : (c.payload_dir ≡ []) ⊎ (c.payload_files ≢ [])

module _ (f : Floats) (u : Urls) where
  method_iff : (m : Text) → (valid_http_method m ≡ true) ↔ AnyOf (to_upper m) http_methods
  unfolding valid_http_method
  method_iff m = one_of_iff (to_upper m) http_methods

  passed-IsValid : (c : Config) → IsPassed f u c → IsValid f u c
  passed-IsValid c v =
      let grpc = IsGrpc-iff c in
      let http = IsHttp-iff c in
      record {
        url_given = (given_iff (trim_space c.url)).0 v.url_given;
        grpc_target = λ g. (host_iff _).0 (v.target.grpc_target (grpc.1 g));
        url_target = λ n.
            (scheme_host_iff _).0 (v.target.url_target (not_true (is_grpc c) (λ e. n (grpc.0 e))));
        method = λ h. (
          (given_iff (trim_space c.method)).0 (v.method.given (http.1 h)),
          (method_iff c.method).0 (v.method.known (http.1 h)),
        );
        some_workers = (IsPositive-iff c.concurrency).0 v.numbers.some_workers;
        duration = (IsNonNegative-iff c.duration).0 v.numbers.duration;
        requests = (IsNonNegative-iff c.requests).0 v.numbers.requests;
        bounded = v.numbers.bounded;
        timeout = (IsPositive-iff c.timeout).0 v.numbers.timeout;
        stream_format = (or_auto_iff c.stream_format stream_formats refl).0 v.formats.stream_format;
        protocol = (one_of_iff c.protocol protocols).0 v.formats.protocol;
        grpc_names = λ g.
            let (service, name) = v.formats.grpc_names (grpc.1 g) in
            ((given_iff c.grpc_service).0 service, (given_iff c.grpc_method).0 name);
        qps = v.rates.qps;
        ramp_up = (IsNonNegative-iff c.ramp_up).0 v.rates.ramp_up;
        ramp_up_fits = λ h k. (fits_iff c.ramp_up c.duration h k).0 (
            v.rates.ramp_up_fits ((IsPositive-iff c.ramp_up).1 h)
              ((IsPositive-iff c.duration).1 k));
        metrics_port = (port_iff c.metrics_port).0 v.rates.metrics_port;
        payloads = elim v.payloads [
          | inl e ↦ inl ((empty_iff c.payload_dir).0 e)
          | inr m ↦ inr ((files_iff c.payload_files).0 m)
        ];
      }

  valid-IsPassed : (c : Config) → IsValid f u c → IsPassed f u c
  valid-IsPassed c v =
      let grpc = IsGrpc-iff c in
      let http = IsHttp-iff c in
      record {
        url_given = (given_iff (trim_space c.url)).1 v.url_given;
        target = record {
          grpc_target = λ e. (host_iff _).1 (v.grpc_target (grpc.0 e));
          url_target =
              λ e. (scheme_host_iff _).1 (v.url_target (λ g. not_false (is_grpc c) e (grpc.1 g)));
        };
        method = record {
          given = λ e. (given_iff (trim_space c.method)).1 ((v.method (http.0 e)).0);
          known = λ e. (method_iff c.method).1 ((v.method (http.0 e)).1);
        };
        numbers = record {
          some_workers = (IsPositive-iff c.concurrency).1 v.some_workers;
          duration = (IsNonNegative-iff c.duration).1 v.duration;
          requests = (IsNonNegative-iff c.requests).1 v.requests;
          bounded = v.bounded;
          timeout = (IsPositive-iff c.timeout).1 v.timeout;
        };
        formats = record {
          stream_format = (or_auto_iff c.stream_format stream_formats refl).1 v.stream_format;
          protocol = (one_of_iff c.protocol protocols).1 v.protocol;
          grpc_names = λ e.
              let (service, name) = v.grpc_names (grpc.0 e) in
              ((given_iff c.grpc_service).1 service, (given_iff c.grpc_method).1 name);
        };
        rates = record {
          qps = v.qps;
          ramp_up = (IsNonNegative-iff c.ramp_up).1 v.ramp_up;
          ramp_up_fits = λ h k.
              let a = (IsPositive-iff c.ramp_up).0 h in
              let b = (IsPositive-iff c.duration).0 k in
              (fits_iff c.ramp_up c.duration a b).1 (v.ramp_up_fits a b);
          metrics_port = (port_iff c.metrics_port).1 v.metrics_port;
        };
        payloads = elim v.payloads [
          | inl e ↦ inl ((empty_iff c.payload_dir).1 e)
          | inr m ↦ inr ((files_iff c.payload_files).1 m)
        ];
      }

  -- `Validate` returns no error for a configuration with a target that has a host, a method of HTTP
  -- where HTTP is used, workers, limits, a timeout, a protocol, a stream format, gRPC names, a rate, a
  -- ramp-up, a port and payloads as IsValid says, and for no other.
  pub validate_iff : (c : Config) → (validate f u c ≡ none) ↔ IsValid f u c
  validate_iff c = (
    λ h. passed-IsValid c (validate_sound f u c h),
    λ v. validate_complete f u c (valid-IsPassed c v),
  )
