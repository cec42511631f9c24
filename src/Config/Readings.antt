-- ===== src/Config/Readings.antt =====
-- What the tests of `Validate` say of texts, numbers and URLs.
use perf_loadgen.Base.{
  ◌<◌, ◌≤◌, ◌%◌, ◌≡◌, refl, inl, inr, text_beq_iff, text_beq, some, Text, List, Int64, two63, two64,
  ◌↔◌, ◌⊎◌, ◌≢◌, Bool, true, false, not, if◌then◌else◌, ◌||◌, [], ◌∷◌, Option, none, arith, length,
  codes, is_empty, le64, lt64, is_pos64, text_eq,
}
use perf_loadgen.Config.{Config, one_of, is_grpc, is_http, has_host, has_scheme_host}

-- A text that is one of a list.
abbrev pub AnyOf : Text → List Text → Type 0
AnyOf t [] = ⊥
AnyOf t (x ∷ xs) = (t ≡ x) ⊎ AnyOf t xs

abbrev pub http_methods : List Text
http_methods =
    codes "GET"
    ∷ codes "HEAD"
    ∷ codes "POST"
    ∷ codes "PUT"
    ∷ codes "PATCH"
    ∷ codes "DELETE"
    ∷ codes "CONNECT"
    ∷ codes "OPTIONS"
    ∷ codes "TRACE"
    ∷ []

abbrev pub stream_formats : List Text
stream_formats = codes "auto" ∷ codes "sse" ∷ codes "jsonl" ∷ codes "raw" ∷ []

abbrev pub protocols : List Text
protocols = [] ∷ codes "http" ∷ codes "grpc" ∷ codes "grpc-stream" ∷ codes "websocket" ∷ []

abbrev pub IsGrpc : Config → Type 0
IsGrpc c = (c.protocol ≡ codes "grpc") ⊎ (c.protocol ≡ codes "grpc-stream")

abbrev pub IsHttp : Config → Type 0
IsHttp c = (c.protocol ≡ []) ⊎ (c.protocol ≡ codes "http")

-- The readings of an int64 of two's complement.
abbrev pub IsNonNegative : Int64 → Type 0
IsNonNegative a = a % two64 < two63

abbrev pub IsPositive : Int64 → Type 0
IsPositive a = (0 < a % two64) × (a % two64 < two63)

pub any_iff {ℓ κ} :
    {P : Type ℓ} {Q : Type κ} (a b : Bool)
    → (a ≡ true) ↔ P
    → (b ≡ true) ↔ Q
    → ((a || b) ≡ true) ↔ (P ⊎ Q)
any_iff true b (p, p') (q, q') = (λ h. inl (p refl), λ h. refl)
any_iff false b (p, p') (q, q') =
    (λ h. inr (q h), λ h. elim h [ inl x ↦ absurd_case (p' x) | inr y ↦ q' y ])
  where
    absurd_case : {b : Bool} → false ≡ true → b ≡ true
    absurd_case e = cc

pub one_of_iff : (t : Text) (xs : List Text) → (one_of t xs ≡ true) ↔ AnyOf t xs
one_of_iff t [] = (λ h. cc, λ h. absurd h)
one_of_iff t (x ∷ xs) = any_iff (text_beq t x) (one_of t xs) (text_beq_iff t x) (one_of_iff t xs)

pub empty_iff : (t : Text) → (is_empty t ≡ true) ↔ (t ≡ [])
empty_iff [] = (λ h. refl, λ h. refl)
empty_iff (c ∷ t) = (λ h. cc, λ h. cc)

pub given_iff : (t : Text) → (is_empty t ≡ false) ↔ (t ≢ [])
given_iff [] = (λ h. cc, λ h. absurd (h refl))
given_iff (c ∷ t) = (λ h e. cc, λ h. refl)

pub IsGrpc-iff : (c : Config) → (is_grpc c ≡ true) ↔ IsGrpc c
IsGrpc-iff c = any_iff _ _ (text_beq_iff c.protocol _) (text_beq_iff c.protocol _)

pub IsHttp-iff : (c : Config) → (is_http c ≡ true) ↔ IsHttp c
IsHttp-iff c = any_iff _ _ (empty_iff c.protocol) (text_beq_iff c.protocol _)

pub shown : (t : Text) → t ≢ [] → not (is_empty t) ≡ true
shown [] h = absurd (h refl)
shown (c ∷ t) h = refl

pub host_found :
    (o : Option (Text × Text)) (s h : Text) → o ≡ some (s, h) → h ≢ [] → has_host o ≡ true
host_found o s h e given = rw e (shown h given)

pub host_iff :
    (o : Option (Text × Text))
    → (has_host o ≡ true)
      ↔ ((scheme : Text) × (host : Text) × (o ≡ some (scheme, host)) × (host ≢ []))
host_iff o = (λ h. sound o h, λ v. host_found o v.0 v.1 v.2 v.3)
  where
    sound :
        (o : Option (Text × Text))
        → has_host o ≡ true
        → (scheme : Text) × (host : Text) × (o ≡ some (scheme, host)) × (host ≢ [])
    sound none h = cc
    sound (some (s, [])) h = cc
    sound (some (s, x ∷ host)) h = (s, x ∷ host, refl, λ e. cc)

pub both_found :
    (o : Option (Text × Text)) (s h : Text)
    → o ≡ some (s, h)
    → s ≢ []
    → h ≢ []
    → has_scheme_host o ≡ true
both_found o s h e k given = rw (e, shown s k) (shown h given)

pub scheme_host_iff :
    (o : Option (Text × Text))
    → (has_scheme_host o ≡ true)
      ↔ ((scheme : Text) × (host : Text) × (o ≡ some (scheme, host)) × (scheme ≢ []) × (host ≢ []))
scheme_host_iff o = (λ h. sound o h, λ v. both_found o v.0 v.1 v.2 v.3 v.4)
  where
    sound :
        (o : Option (Text × Text))
        → has_scheme_host o ≡ true
        → (scheme : Text) × (host : Text) × (o ≡ some (scheme, host)) × (scheme ≢ []) × (host ≢ [])
    sound none h = cc
    sound (some ([], host)) h = cc
    sound (some (x ∷ s, [])) h = cc
    sound (some (x ∷ s, y ∷ host)) h = (x ∷ s, y ∷ host, refl, λ e. cc, λ e. cc)

pub or_auto_iff :
    (t : Text) (names : List Text)
    → one_of (codes "auto") names ≡ true
    → (one_of (if is_empty t then codes "auto" else t) names ≡ true) ↔ AnyOf t ([] ∷ names)
or_auto_iff [] names known = (λ h. inl refl, λ h. known)
or_auto_iff (c ∷ t) names known =
    let (sound, complete) = one_of_iff (c ∷ t) names in
    (λ h. inr (sound h), λ h. elim h [ inl e ↦ cc | inr k ↦ complete k ])

pub files_iff : (files : List Text) → (0 < length files) ↔ (files ≢ [])
files_iff [] = (λ h. absurd (omega arith), λ h. absurd (h refl))
files_iff (x ∷ files) = (λ h e. cc, λ h. omega arith)

pub not_true : (b : Bool) → ¬ (b ≡ true) → b ≡ false
not_true true h = absurd (h refl)
not_true false h = refl

pub not_false : (b : Bool) → b ≡ false → ¬ (b ≡ true)
not_false b h e = cc

pub IsNonNegative-iff : (a : Int64) → (le64 0 a ≡ true) ↔ IsNonNegative a
IsNonNegative-iff a = (λ h. ground arith, λ h. ground arith)

pub IsPositive-iff : (a : Int64) → (is_pos64 a ≡ true) ↔ IsPositive a
IsPositive-iff a = (λ h. ground arith, λ h. ground arith)

pub port_iff : (a : Int64) → ((le64 0 a ≡ true) × (le64 a 65535 ≡ true)) ↔ (a % two64 ≤ 65535)
port_iff a = (λ h. ground arith, λ h. ground arith)

pub fits_iff :
    (a b : Int64) → IsPositive a → IsPositive b → (lt64 b a ≡ false) ↔ (a % two64 ≤ b % two64)
fits_iff a b h k = (λ e. ground arith, λ e. ground arith)
