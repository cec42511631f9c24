-- ===== src/Cli/Master.antt =====
-- internal/cli/master.go: ParseMaster and ParseWorker.
use perf_loadgen.Base.{
  Bool, true, false, ◌&&◌, ◌||◌, List, [], ◌∷◌, Option, none, some, Text, Int64, Floats, codes,
  text_beq, trim_space, if◌then◌else◌, Result, err, ok, ◌>>=◌,
}
use perf_loadgen.Config.{Config, Urls, empty_config}
use perf_loadgen.Config.Files.{Host}
use perf_loadgen.Cli.{CliError, value_missing, bad_flags}
use perf_loadgen.Cli.Lists.{split_csv}
use perf_loadgen.Cli.Parse.{FlagParser, parse, or_error}

pub record MasterOptions : Type 0 where
  pub workers : List Text
  pub dashboard_addr : Text
  pub persistent : Bool
  pub auth_secret : Text
  pub max_concurrent_jobs : Int64

abbrev pub no_options : MasterOptions
no_options = record {
  workers = [];
  dashboard_addr = [];
  persistent = false;
  auth_secret = [];
  max_concurrent_jobs = 0;
}

-- The flags of the master that take a value.
abbrev pub takes_value : Text → Bool
takes_value a =
    text_beq a (codes "--workers")
    || text_beq a (codes "--dashboard-addr")
    || text_beq a (codes "--auth-secret")
    || text_beq a (codes "--max-concurrent-jobs")

abbrev pub or_kept : Int64 → Option Int64 → Int64
or_kept n none = n
or_kept n (some m) = m

-- `scan` is fmt.Sscanf with "%d": what it stores, if anything.
unfoldable pub set_option : (Text → Option Int64) → MasterOptions → Text → Text → MasterOptions
unfolding split_csv trim_space
set_option scan o a v =
    if text_beq a (codes "--workers")
    then record o { workers = split_csv v }
    else if text_beq a (codes "--dashboard-addr")
    then record o { dashboard_addr = trim_space v }
    else if text_beq a (codes "--auth-secret")
    then record o { auth_secret = trim_space v }
    else record o { max_concurrent_jobs = or_kept o.max_concurrent_jobs (scan v) }

abbrev pub Split : Type 0
Split = Result CliError (MasterOptions × List Text)

abbrev pub with_job_argument : Text → Split → Split
with_job_argument a (err e) = err e
with_job_argument a (ok (o, args)) = ok (o, a ∷ args)

abbrev pub set_persistent : MasterOptions → MasterOptions
set_persistent o = record o { persistent = true }

-- The loop over the arguments: the options of the master, and the arguments of its job.
unfoldable pub split_arguments : (Text → Option Int64) → MasterOptions → List Text → Split
unfolding set_option
split_arguments scan o [] = ok (o, [])
split_arguments scan o (a ∷ []) =
    if takes_value a
    then err (value_missing a)
    else if text_beq a (codes "--persistent")
    then ok (set_persistent o, [])
    else ok (o, a ∷ [])
split_arguments scan o (a ∷ v ∷ args) =
    let valued = split_arguments scan (set_option scan o a v) args in
    let flagged = split_arguments scan (set_persistent o) (v ∷ args) in
    let kept = split_arguments scan o (v ∷ args) in
    if takes_value a
    then valued
    else if text_beq a (codes "--persistent")
    then flagged
    else with_job_argument a kept

abbrev pub no_arguments : List Text → Bool
no_arguments [] = true
no_arguments (a ∷ args) = false

module _ (host : Host) (f : Floats) (u : Urls) (flags : FlagParser) where
  abbrev pub with_job :
      MasterOptions → Result CliError Config → Result CliError (Config × MasterOptions)
  with_job o (err e) = err e
  with_job o (ok c) = ok (c, o)

  unfoldable pub parse_master :
      (Text → Option Int64) → List Text → Result CliError (Config × MasterOptions)
  unfolding split_arguments parse
  parse_master scan args = split_arguments scan no_options args >>= (λ s.
      if s.0.persistent && no_arguments s.1
      then ok (empty_config, s.0)
      else with_job s.0 (parse host f u flags s.1))

pub record WorkerOptions : Type 0 where
  pub id : Text
  pub listen_addr : Text
  pub capacity : Int64
  pub auth_secret : Text

-- `flags` is fs.Parse on the four flags; their values are trimmed.
unfoldable pub parse_worker :
    (List Text → Option WorkerOptions) → List Text → Result CliError WorkerOptions
unfolding trim_space
parse_worker flags args = or_error bad_flags (flags args) >>= (λ o. ok (record o {
  id = trim_space o.id;
  listen_addr = trim_space o.listen_addr;
  auth_secret = trim_space o.auth_secret;
}))
