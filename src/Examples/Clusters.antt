-- ===== src/Examples/Clusters.antt =====
-- Workers and a master of internal/distributed: one worker with two places, one run over two workers.
use mathlib.Core.List.{flatten}
use perf_loadgen.Base.{
  ℕ, zero, suc, ◌≤◌, ◌<◌, ◌≡◌, ◌≢◌, refl, ◌↔◌, ◌⊎◌, true, false, List, [], ◌∷◌, ◌++◌, map, Option,
  none, some, arith, length, Text, codes, text_eq, nat_eq, lookup, put, keys, thousandths, Result,
  ok, err,
}
use perf_loadgen.Types.{RunResult, empty_result}
use perf_loadgen.Config.{Config, validate}
use perf_loadgen.Stats.Collector.{snapshot, summary}
use perf_loadgen.Stats.Collector
use perf_loadgen.Stats.Collector.Agreement.{Agree}
use perf_loadgen.Stats.Collector.Distributed.{collected}
use perf_loadgen.Distributed.{JobRequest, JobSpec, WorkerResult, WorkerState, no_health}
use perf_loadgen.Distributed.Auth.{Request, auth_middleware}
use perf_loadgen.Distributed.Auth.Access.{Admitted, auth_middleware_iff}
use perf_loadgen.Distributed.Worker.{Worker, new, accept, shutdown, at_capacity}
use perf_loadgen.Distributed.Worker.Capacity.{
  Site, admitted, Runs, here, then_, swap, created, Runs-bounded, shutdown-accept,
}
use perf_loadgen.Distributed.Worker.Repeats.{accept_all, accept_all_lem}
use perf_loadgen.Distributed.Queue
use perf_loadgen.Distributed.Master.{
  shard_config, Network, unanswered, answered, dispatch, run_request,
}
use perf_loadgen.Distributed.Master.Shards.{shards, sum_requests, shards-sum, shard_config-starved}
use perf_loadgen.Distributed.Master.Dispatch.{Delivered, dispatch_iff}
use perf_loadgen.Distributed.Master.Gather.{gather, run}
use perf_loadgen.Distributed.Master.Gather.Outcome.{
  is_in, Succeeds, AllFrom, run-status, gather-collected,
}
use perf_loadgen.Distributed.Master.Stream.{
  Event, broadcasted, wrote, after_all, opened, messages, capacity, after_all-opened,
}
use perf_loadgen.Distributed.Master.Api.{handle_jobs}
use perf_loadgen.Distributed.Master.Api.Acceptance.{Answers, handle_jobs_lem}
use perf_loadgen.Examples.Settings.{lenient, chat}

-- A stand-in for the keyed hash.
abbrev pair_hash : Text → Text → Text
pair_hash secret id = secret ++ codes "/" ++ id

abbrev cancel_request : Request
cancel_request = record { method = codes "POST"; path = codes "/cancel/job-1"; authorization = [] }

auth_middleware_iff_example :
    (auth_middleware pair_hash (codes "s") cancel_request ≡ true)
    ↔ Admitted pair_hash (codes "s") cancel_request
auth_middleware_iff_example = auth_middleware_iff pair_hash (codes "s") cancel_request

abbrev idle : Site
idle = created (codes "w") (codes ":1") 2 [] 1

abbrev one_job : Worker
one_job = record idle.worker { jobs = (codes "a", 7) ∷ [] }

fresh_job : lookup (codes "a") idle.worker.jobs ≡ none
unfolding new lookup
fresh_job = refl

fresh_context : lookup 7 idle.active ≡ none
unfolding lookup
fresh_context = refl

accepted_one : accept (codes "a") 7 idle.worker ≡ ok one_job
unfolding accept new put
accepted_one = refl

abbrev serving : Site
serving = record { worker = one_job; active = (7, codes "a") ∷ [] }

serving-Runs : Runs idle serving
serving-Runs = then_ here (admitted (codes "a") 7 one_job fresh_job fresh_context accepted_one)

Runs-bounded_example : (length serving.active ≤ 2) × (serving.worker.jobs ≡ map swap serving.active)
Runs-bounded_example =
    Runs-bounded (codes "w") (codes ":1") 2 [] 1 serving (omega arith) (omega arith) serving-Runs

shutdown-accept_example :
    let closed = (shutdown serving.worker).0 in
    (accept (codes "b") 8 closed ≡ err (at_capacity (keys closed.jobs)))
    × ((shutdown serving.worker).1 ≡ map (λ e. e.1) serving.worker.jobs)
shutdown-accept_example =
    shutdown-accept serving (record serving { worker = (shutdown serving.worker).0 }) (codes "b") 8
      here

two_places : 2 ≤ idle.worker.capacity
unfolding new
two_places = omega arith

no_jobs : idle.worker.jobs ≡ []
unfolding new
no_jobs = refl

accept_all_lem_example :
    (r : Worker) × (accept_all (codes "a") (1 ∷ 2 ∷ 3 ∷ 4 ∷ []) idle.worker ≡ ok r)
    × (length r.jobs ≤ 1)
accept_all_lem_example =
    accept_all_lem (codes "a") (1 ∷ 2 ∷ 3 ∷ 4 ∷ []) idle.worker two_places no_jobs

shards-sum_example : sum_requests (shards chat 3) ≡ 100
shards-sum_example = shards-sum chat 3 (omega arith) (omega arith) (omega arith)

abbrev few : Config
few = record chat { requests = 2 }

shard_config-starved_example :
    ((shard_config few 2 3).requests ≡ 0)
    × (((shard_config few 2 3).duration ≢ 0)
        ⊎ (validate thousandths lenient (shard_config few 2 3) ≢ none))
shard_config-starved_example =
    shard_config-starved thousandths lenient few 2 3 (omega arith) (omega arith) (omega arith)
      (omega arith)

abbrev plain_result : WorkerResult
plain_result = record {
  worker_id = codes "w";
  job_id = codes "job-1";
  started = 1;
  ended = 2;
  snapshot = snapshot (Collector.new thousandths);
  summary = summary thousandths (Collector.new thousandths);
  error = [];
}

-- The first exchange gets no answer, the next ones do.
abbrev flaky : Network
flaky = record {
  exchange = λ attempt request. elim attempt [
    | zero ↦ unanswered (codes "refused")
    | suc n ↦ answered (record { status_code = 200; status = codes "200 OK"; body = codes "{}" })
  ];
  cancelled = λ attempt. none;
  encode_job = λ job. ok (codes "{}");
  decode_result = λ body. ok plain_result;
  decode_health = λ body. ok no_health;
  hex_hmac = pair_hash;
}

abbrev first_job : JobRequest
first_job = record { job_id = codes "job-1"; config = chat }

dispatch_iff_example :
    (dispatch flaky (codes "s") (codes "http://a") first_job ≡ ok plain_result)
    ↔ Delivered flaky
        (run_request flaky (codes "http://a") (codes "s") (codes "job-1") (codes "{}"))
        plain_result
        3
        0
dispatch_iff_example =
    dispatch_iff flaky (codes "s") (codes "http://a") (codes "{}") first_job plain_result refl

abbrev address_of : ℕ → Text
address_of i = codes "http://w"

-- The first worker answers, the others fail.
abbrev mixed : ℕ → Result Text WorkerResult
mixed zero = ok plain_result
mixed (suc i) = err (codes "refused")

abbrev unchecked : WorkerState
unchecked = record {
  worker_id = [];
  address = [];
  status = codes "ready";
  health = no_health;
  result = none;
  error = [];
}

abbrev arrival : List ℕ
arrival = 1 ∷ 0 ∷ []

both_arrive : (i : ℕ) → i < 2 → is_in i arrival ≡ true
both_arrive i h = ground arith

run-status_example :
    ((run thousandths address_of mixed 0
        (codes "job-1")
        1
        2
        3
        arrival
        (unchecked ∷ unchecked ∷ [])).status
      ≡ codes "completed")
    ↔ AllFrom thousandths address_of mixed
        (Succeeds thousandths address_of mixed)
        0
        (unchecked ∷ unchecked ∷ [])
run-status_example =
    run-status thousandths address_of mixed 0 (codes "job-1") 1 2 3 arrival
      (unchecked ∷ unchecked ∷ []) both_arrive

abbrev slow_result : RunResult
slow_result = record empty_result { success = true; latency = 12_000; status_code = 200 }

abbrev measured : WorkerResult
measured = record plain_result { snapshot = snapshot (collected thousandths (slow_result ∷ [])) }

gather-collected_example :
    Agree
      (gather thousandths address_of
        (λ i. ok measured)
        arrival
        (unchecked ∷ unchecked ∷ [], Collector.new thousandths)).1
      (collected thousandths (flatten (map (λ i. slow_result ∷ []) arrival)))
gather-collected_example =
    gather-collected thousandths address_of (λ i. ok measured) arrival (unchecked ∷ unchecked ∷ [])
      (λ i. slow_result ∷ []) (λ i. (measured, refl, refl)) (omega arith, (omega arith, tt))

abbrev traffic : List Event
traffic = broadcasted (codes "one") ∷ wrote ∷ broadcasted (codes "two") ∷ []

after_all-opened_example :
    let ch = after_all traffic opened in
    ((missed : List Text) × (ch.written ++ ch.buffer ++ missed ≡ messages traffic))
    × ((ch.registered ≡ false) ⊎ (ch.written ++ ch.buffer ≡ messages traffic))
    × (length ch.buffer ≤ capacity)
after_all-opened_example = after_all-opened traffic

abbrev chat_job : Option JobSpec
chat_job = some (record { config = chat; workers = codes "http://a" ∷ [] })

abbrev post_job : Request
post_job = record { method = codes "POST"; path = codes "/api/jobs"; authorization = [] }

handle_jobs_lem_example :
    Answers thousandths lenient post_job chat_job
      (codes "job-9")
      5
      (Queue.new 3)
      (handle_jobs thousandths lenient post_job chat_job (codes "job-9") 5 (Queue.new 3))
handle_jobs_lem_example =
    handle_jobs_lem thousandths lenient post_job (codes "job-9") 5 (Queue.new 3) chat_job
