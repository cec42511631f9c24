-- ===== src/Distributed/Auth.antt =====
-- internal/distributed/auth.go: signatures of jobs and the two middlewares. The hexadecimal
-- HMAC-SHA256 of a message under a secret is a parameter, and hmac.Equal is equality.
pub mod Access
pub mod Bearer
use perf_loadgen.Base.{
  Bool, true, false, not, ◌&&◌, ◌||◌, List, [], ◌∷◌, ◌++◌, if◌then◌else◌, ◌==◌, Text, codes,
  text_eq, is_empty, has_prefix, trim_prefix,
}

-- What the handlers read of a request; a missing header is empty.
pub record Request : Type 0 where
  pub method : Text
  pub path : Text
  pub authorization : Text

unfoldable pub extract_job_id : Request → Text
extract_job_id r =
    if has_prefix r.path (codes "/cancel/")
    then trim_prefix r.path (codes "/cancel/")
    else if has_prefix r.path (codes "/status/")
    then trim_prefix r.path (codes "/status/")
    else []

module _ (hex_hmac : Text → Text → Text) where
  unfoldable pub sign_job : Text → Text → Text
  sign_job job_id secret = if is_empty secret then [] else codes "Bearer " ++ hex_hmac secret job_id

  unfoldable pub verify_job : Request → Text → Text → Bool
  unfolding sign_job
  verify_job r job_id secret =
      if is_empty secret then true else r.authorization == sign_job job_id secret

  unfoldable pub add_auth_header : Request → Text → Text → Request
  unfolding sign_job
  add_auth_header r job_id secret =
      if is_empty secret then r else record r { authorization = sign_job job_id secret }

  -- Whether `AuthMiddleware` hands a request on.
  unfoldable pub auth_middleware : Text → Request → Bool
  unfolding extract_job_id verify_job
  auth_middleware secret r =
      if is_empty secret
      then true
      else if r.path == codes "/health" || r.path == codes "/run"
      then true
      else not (is_empty (extract_job_id r)) && verify_job r (extract_job_id r) secret

-- Whether `MasterAuthMiddleware` hands a request on.
unfoldable pub master_auth_middleware : Text → Request → Bool
master_auth_middleware secret r =
    if is_empty secret
    then true
    else if r.method == codes "GET"
        || r.method == codes "HEAD"
        || r.path == codes "/health"
        || r.path == codes "/ready"
    then true
    else has_prefix r.authorization (codes "Bearer ")
      && trim_prefix r.authorization (codes "Bearer ") == secret
