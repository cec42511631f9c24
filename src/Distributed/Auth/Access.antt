-- ===== src/Distributed/Auth/Access.antt =====
-- internal/distributed/auth.go: which requests the middlewares hand on.
use perf_loadgen.Base.{
  ◌≡◌, refl, sym, ap, ◌∙◌, ◌↔◌, ◌⊎◌, inl, inr, true, false, [], ◌∷◌, ◌++◌, arith, drop_append, ◌==◌,
  nat_beq, nat_beq_iff, Bool-cases, Text, codes, text_eq, text_beq_iff, is_empty, has_prefix,
  trim_prefix,
}
use perf_loadgen.Distributed.Auth.{
  Request, extract_job_id, sign_job, verify_job, add_auth_header, auth_middleware,
}

pub prefix_sound : (s p : Text) → has_prefix s p ≡ true → (t : Text) × (s ≡ p ++ t)
unfolding has_prefix
prefix_sound s [] h = (s, refl)
prefix_sound [] (p ∷ ps) h = cc
prefix_sound (c ∷ s) (p ∷ ps) h = elim (Bool-cases (nat_beq c p)) [
  | inl same ↦
      let (t, e) = prefix_sound s ps (ground (arith, same)) in
      (t, ground (arith, nat_beq_iff c p, e))
  | inr other ↦ ground arith
]

pub prefix_append : (p t : Text) → has_prefix (p ++ t) p ≡ true
unfolding has_prefix
prefix_append [] t = refl
prefix_append (c ∷ p) t = ground (arith, prefix_append p t)

pub trim_append : (p t : Text) → trim_prefix (p ++ t) p ≡ t
unfolding trim_prefix
trim_append p t = rw (prefix_append p t) (drop_append p t)

-- The path is about one job.
abbrev pub Names : Text → Text → Type 0
Names path id =
    (is_empty id ≡ false) × ((path ≡ codes "/cancel/" ++ id) ⊎ (path ≡ codes "/status/" ++ id))

extract_cancel : (r : Request) (id : Text) → r.path ≡ codes "/cancel/" ++ id → extract_job_id r ≡ id
unfolding extract_job_id
extract_cancel r id e =
    rw e (rw (prefix_append (codes "/cancel/") id) (trim_append (codes "/cancel/") id))

extract_status : (r : Request) (id : Text) → r.path ≡ codes "/status/" ++ id → extract_job_id r ≡ id
unfolding extract_job_id has_prefix
extract_status r id e = rw e (trim_append (codes "/status/") id)

not_given :
    (r : Request)
    → has_prefix r.path (codes "/cancel/") ≡ false
    → has_prefix r.path (codes "/status/") ≡ false
    → ¬ (is_empty (extract_job_id r) ≡ false)
unfolding extract_job_id
not_given r c s h = ground arith

extract_job_id-Names :
    (r : Request) → is_empty (extract_job_id r) ≡ false → Names r.path (extract_job_id r)
extract_job_id-Names r given = elim (Bool-cases (has_prefix r.path (codes "/cancel/"))) [
  | inl c ↦
      let (t, e) = prefix_sound r.path (codes "/cancel/") c in
      (given, inl (e ∙ ap (λ i. codes "/cancel/" ++ i) (sym (extract_cancel r t e))))
  | inr c ↦ elim (Bool-cases (has_prefix r.path (codes "/status/"))) [
    | inl s ↦
        let (t, e) = prefix_sound r.path (codes "/status/") s in
        (given, inr (e ∙ ap (λ i. codes "/status/" ++ i) (sym (extract_status r t e))))
    | inr s ↦ absurd (not_given r c s given)
  ]
]

module _ (hex_hmac : Text → Text → Text) where
  -- A request that a worker with a secret hands on to its handlers.
  pub data Admitted (secret : Text) (r : Request) : Type 0 where
    unprotected : is_empty secret ≡ true → Admitted secret r
    health : r.path ≡ codes "/health" → Admitted secret r
    run : r.path ≡ codes "/run" → Admitted secret r
    signed :
        (id : Text)
        → Names r.path id
        → r.authorization ≡ sign_job hex_hmac id secret
        → Admitted secret r

  both_tests :
      (secret : Text) (r : Request)
      → is_empty secret ≡ false
      → (r.path == codes "/health") ≡ false
      → (r.path == codes "/run") ≡ false
      → auth_middleware hex_hmac secret r ≡ true
      → (is_empty (extract_job_id r) ≡ false)
        × ((r.authorization == sign_job hex_hmac (extract_job_id r) secret) ≡ true)
  unfolding auth_middleware verify_job
  both_tests secret r closed p q h = ground arith

  admitted_sound :
      (secret : Text) (r : Request) → auth_middleware hex_hmac secret r ≡ true → Admitted secret r
  unfolding auth_middleware verify_job
  admitted_sound secret r h = elim (Bool-cases (is_empty secret)) [
    | inl open_ ↦ unprotected open_
    | inr closed ↦ elim (Bool-cases (r.path == codes "/health")) [
      | inl p ↦ health ((text_beq_iff r.path (codes "/health")).0 p)
      | inr p ↦ elim (Bool-cases (r.path == codes "/run")) [
        | inl q ↦ run ((text_beq_iff r.path (codes "/run")).0 q)
        | inr q ↦
            let (given, verified) = both_tests secret r closed p q h in
            signed (extract_job_id r) (extract_job_id-Names r given) (
              (text_beq_iff r.authorization (sign_job hex_hmac (extract_job_id r) secret)).0
                verified)
      ]
    ]
  ]

  signed_admitted :
      (secret : Text) (r : Request) (id : Text)
      → is_empty id ≡ false
      → extract_job_id r ≡ id
      → r.authorization ≡ sign_job hex_hmac id secret
      → auth_middleware hex_hmac secret r ≡ true
  unfolding auth_middleware verify_job
  signed_admitted secret r id given names e =
      let verified = (text_beq_iff r.authorization (sign_job hex_hmac id secret)).1 e in
      ground (arith, names, verified, given)

  Names-extracted : (r : Request) (id : Text) → Names r.path id → extract_job_id r ≡ id
  Names-extracted r id (given, inl e) = extract_cancel r id e
  Names-extracted r id (given, inr e) = extract_status r id e

  admitted_complete :
      (secret : Text) (r : Request) → Admitted secret r → auth_middleware hex_hmac secret r ≡ true
  unfolding auth_middleware
  admitted_complete secret r (unprotected open_) = rw open_ refl
  admitted_complete secret r (health e) =
      ground (arith, (text_beq_iff r.path (codes "/health")).1 e)
  admitted_complete secret r (run e) = ground (arith, (text_beq_iff r.path (codes "/run")).1 e)
  admitted_complete secret r (signed id names e) =
      signed_admitted secret r id names.0 (Names-extracted r id names) e

  -- The worker's middleware hands a request on exactly when there is no secret, the path is
  -- /health or /run, or the request cancels or asks for one named job and its header is the
  -- signature of that very job under the secret.
  pub auth_middleware_iff :
      (secret : Text) (r : Request) → (auth_middleware hex_hmac secret r ≡ true) ↔ Admitted secret r
  auth_middleware_iff secret r = (admitted_sound secret r, admitted_complete secret r)

  -- A request that carries the header of a job under the same secret passes that job's test, and a
  -- request to cancel that job passes the middleware, provided that the job has a name.
  pub add_auth_header_lem :
      (secret id : Text) (r : Request)
      → is_empty id ≡ false
      → r.path ≡ codes "/cancel/" ++ id
      → (verify_job hex_hmac (add_auth_header hex_hmac r id secret) id secret ≡ true)
        × (auth_middleware hex_hmac secret (add_auth_header hex_hmac r id secret) ≡ true)
  unfolding add_auth_header verify_job
  add_auth_header_lem secret id r given e = elim (Bool-cases (is_empty secret)) [
    | inl open_ ↦ (
      ground arith,
      admitted_complete secret (add_auth_header hex_hmac r id secret) (unprotected open_),
    )
    | inr closed ↦ (
      ground (
        arith,
        (text_beq_iff (sign_job hex_hmac id secret) (sign_job hex_hmac id secret)).1 refl,
      ),
      admitted_complete secret (add_auth_header hex_hmac r id secret)
          (signed id (given, inl (path_kept ∙ e)) (header_set closed)),
    )
  ]
    where
      path_kept : (add_auth_header hex_hmac r id secret).path ≡ r.path
      path_kept = ground arith

      header_set :
          is_empty secret ≡ false
          → (add_auth_header hex_hmac r id secret).authorization ≡ sign_job hex_hmac id secret
      header_set closed = ground arith
