-- ===== src/Distributed/Auth/Bearer.antt =====
-- internal/distributed/auth.go: which requests the master's middleware hands on.
use perf_loadgen.Base.{
  ◌≡◌, refl, sym, ap, ◌∙◌, ◌↔◌, ◌⊎◌, inl, inr, true, false, ◌&&◌, ◌++◌, arith, ◌==◌, Bool-cases,
  Text, codes, text_eq, text_beq_iff, is_empty, has_prefix, trim_prefix,
}
use perf_loadgen.Distributed.Auth.{Request, master_auth_middleware}
use perf_loadgen.Distributed.Auth.Access.{prefix_sound, prefix_append, trim_append}

-- A request that a master with a secret hands on.
pub data Trusted (secret : Text) (r : Request) : Type 0 where
  unprotected : is_empty secret ≡ true → Trusted secret r
  reading : (r.method ≡ codes "GET") ⊎ (r.method ≡ codes "HEAD") → Trusted secret r
  probing : (r.path ≡ codes "/health") ⊎ (r.path ≡ codes "/ready") → Trusted secret r
  bearer : r.authorization ≡ codes "Bearer " ++ secret → Trusted secret r

bearer_tests :
    (secret : Text) (r : Request)
    → is_empty secret ≡ false
    → (r.method == codes "GET") ≡ false
    → (r.method == codes "HEAD") ≡ false
    → (r.path == codes "/health") ≡ false
    → (r.path == codes "/ready") ≡ false
    → master_auth_middleware secret r ≡ true
    → (has_prefix r.authorization (codes "Bearer ") ≡ true)
      × ((trim_prefix r.authorization (codes "Bearer ") == secret) ≡ true)
unfolding master_auth_middleware
bearer_tests secret r closed g d p y h = ground arith

bearer_sound :
    (secret : Text) (r : Request)
    → has_prefix r.authorization (codes "Bearer ") ≡ true
    → (trim_prefix r.authorization (codes "Bearer ") == secret) ≡ true
    → r.authorization ≡ codes "Bearer " ++ secret
bearer_sound secret r starts same =
    let (t, e) = prefix_sound r.authorization (codes "Bearer ") starts in
    let trimmed = (text_beq_iff (trim_prefix r.authorization (codes "Bearer ")) secret).0 same in
    let token : t ≡ secret =
      sym (trim_append (codes "Bearer ") t)
      ∙ ap (λ a. trim_prefix a (codes "Bearer ")) (sym e)
      ∙ trimmed in
    e ∙ ap (λ i. codes "Bearer " ++ i) token

Trusted-sound :
    (secret : Text) (r : Request) → master_auth_middleware secret r ≡ true → Trusted secret r
Trusted-sound secret r h = elim (Bool-cases (is_empty secret)) [
  | inl open_ ↦ unprotected open_
  | inr closed ↦ elim (Bool-cases (r.method == codes "GET")) [
    | inl g ↦ reading (inl ((text_beq_iff r.method (codes "GET")).0 g))
    | inr g ↦ elim (Bool-cases (r.method == codes "HEAD")) [
      | inl d ↦ reading (inr ((text_beq_iff r.method (codes "HEAD")).0 d))
      | inr d ↦ elim (Bool-cases (r.path == codes "/health")) [
        | inl p ↦ probing (inl ((text_beq_iff r.path (codes "/health")).0 p))
        | inr p ↦ elim (Bool-cases (r.path == codes "/ready")) [
          | inl y ↦ probing (inr ((text_beq_iff r.path (codes "/ready")).0 y))
          | inr y ↦
              let (starts, same) = bearer_tests secret r closed g d p y h in
              bearer (bearer_sound secret r starts same)
        ]
      ]
    ]
  ]
]

bearer_complete :
    (secret : Text) (r : Request)
    → r.authorization ≡ codes "Bearer " ++ secret
    → (has_prefix r.authorization (codes "Bearer ")
        && trim_prefix r.authorization (codes "Bearer ") == secret)
      ≡ true
bearer_complete secret r e =
    rw (e, prefix_append (codes "Bearer ") secret, trim_append (codes "Bearer ") secret)
      ((text_beq_iff secret secret).1 refl)

Trusted-complete :
    (secret : Text) (r : Request) → Trusted secret r → master_auth_middleware secret r ≡ true
unfolding master_auth_middleware
Trusted-complete secret r (unprotected open_) = rw open_ refl
Trusted-complete secret r (reading (inl e)) =
    ground (arith, (text_beq_iff r.method (codes "GET")).1 e)
Trusted-complete secret r (reading (inr e)) =
    ground (arith, (text_beq_iff r.method (codes "HEAD")).1 e)
Trusted-complete secret r (probing (inl e)) =
    ground (arith, (text_beq_iff r.path (codes "/health")).1 e)
Trusted-complete secret r (probing (inr e)) =
    ground (arith, (text_beq_iff r.path (codes "/ready")).1 e)
Trusted-complete secret r (bearer e) = ground (arith, bearer_complete secret r e)

-- The master's middleware hands a request on exactly when there is no secret, the request only
-- reads, it asks for the health of the master, or its header is the secret as a bearer token.
pub master_auth_middleware_iff :
    (secret : Text) (r : Request) → (master_auth_middleware secret r ≡ true) ↔ Trusted secret r
master_auth_middleware_iff secret r = (Trusted-sound secret r, Trusted-complete secret r)
