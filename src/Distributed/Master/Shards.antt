-- ===== src/Distributed/Master/Shards.antt =====
-- internal/distributed/master.go, shardConfig: the requests of a run, spread over the workers.
use native.Mathlib.Nat.{div-add-mod', mod-lt, div-le_self, div-eq_of_lt, mod-eq_of_lt}
use perf_loadgen.Base.{
  ℕ, zero, suc, ◌+◌, ◌*◌, ◌/◌, ◌%◌, ◌≤◌, ◌<◌, ◌≡◌, ◌≢◌, refl, sym, ◌∙◌, ◌⊎◌, inl, inr, true, List,
  [], ◌∷◌, map, none, min, arith, leb, ltb, nat_beq, Bool-cases, if◌then◌else◌, two63, lt64_nonneg,
  quot64_nonneg, rem64_nonneg, Floats,
}
use perf_loadgen.Config.{Config, Urls, validate}
use perf_loadgen.Config.Validity.{validate_iff}
use perf_loadgen.Distributed.Master.{shard_config}

-- The indices of the loop, from `i` on.
abbrev pub upto : ℕ → ℕ → List ℕ
upto i zero = []
upto i (suc n) = i ∷ upto (suc i) n

-- The configurations that the workers get.
abbrev pub shards : Config → ℕ → List Config
shards cfg total = map (λ i. shard_config cfg i total) (upto 0 total)

abbrev pub sum_requests : List Config → ℕ
sum_requests [] = 0
sum_requests (c ∷ cs) = c.requests + sum_requests cs

abbrev share : ℕ → ℕ → ℕ → ℕ
share q r i = if ltb i r then q + 1 else q

shard_share :
    (cfg : Config) (i total : ℕ)
    → cfg.requests < two63
    → i < total
    → 2 ≤ total
    → total < two63
    → (shard_config cfg i total).requests ≡ (
        if nat_beq cfg.requests 0 then 0 else share (cfg.requests / total) (cfg.requests % total) i)
unfolding shard_config
shard_share cfg i total hr hi two ht =
    let q = quot64_nonneg cfg.requests total hr ht in
    let r = rem64_nonneg cfg.requests total hr (omega arith) ht in
    let small = div-le_self cfg.requests total in
    let below = mod-lt cfg.requests {m = total} (omega arith) in
    let test = lt64_nonneg i (cfg.requests % total) (omega arith) (omega (arith, below)) in
    rw (q, r) (ground (arith, test, small))

share_step : (q r i : ℕ) → share q r i + min i r ≡ q + min (suc i) r
share_step q r i = ground arith

sum_shares :
    (cfg : Config) (total q r i n : ℕ)
    → ((j : ℕ) → j < total → (shard_config cfg j total).requests ≡ share q r j)
    → i + n ≤ total
    → sum_requests (map (λ j. shard_config cfg j total) (upto i n)) + min i r
      ≡ n * q + min (i + n) r
sum_shares cfg total q r i zero each h = grind arith
sum_shares cfg total q r i (suc n) each h =
    let here = each i (omega arith) in
    let rest = sum_shares cfg total q r (suc i) n each (omega arith) in
    let e : suc n * q ≡ q + n * q = grind arith in
    let step : share q r i + min i r ≡ q + min (suc i) r = share_step q r i in
    omega (arith, here, rest, e, step)

sum_positive :
    (cfg : Config) (total : ℕ)
    → cfg.requests < two63
    → cfg.requests ≢ 0
    → 2 ≤ total
    → total < two63
    → sum_requests (shards cfg total) ≡ cfg.requests
sum_positive cfg total hr some_requests two ht =
    let q = cfg.requests / total in
    let r = cfg.requests % total in
    let below = mod-lt cfg.requests {m = total} (omega arith) in
    let e : total * q ≡ q * total = grind arith in
    omega (
      arith,
      sum_shares cfg total q r 0 total
          (λ j h. shard_share cfg j total hr h two ht ∙ ground (arith, some_requests))
          (omega arith),
      div-add-mod' cfg.requests total,
      below,
      e,
    )

sum_single :
    (cfg : Config) (total : ℕ)
    → 0 < total
    → leb total 1 ≡ true
    → sum_requests (shards cfg total) ≡ cfg.requests
unfolding shard_config
sum_single cfg zero some_workers single = absurd (omega arith)
sum_single cfg (suc zero) some_workers single = omega arith
sum_single cfg (suc (suc n)) some_workers single = ground arith

sum_nothing_from :
    (cfg : Config) (total i n : ℕ)
    → cfg.requests ≡ 0
    → sum_requests (map (λ j. shard_config cfg j total) (upto i n)) ≡ 0
unfolding shard_config
sum_nothing_from cfg total i zero e = refl
sum_nothing_from cfg total i (suc n) e = ground (arith, sum_nothing_from cfg total (suc i) n e)

sum_nothing :
    (cfg : Config) (total : ℕ) → cfg.requests ≡ 0 → sum_requests (shards cfg total) ≡ cfg.requests
sum_nothing cfg total e = sum_nothing_from cfg total 0 total e ∙ sym e

-- The shards of a run over at least one worker ask for exactly the requests of the run, for every
-- number of requests and of workers below 2^63.
pub shards-sum :
    (cfg : Config) (total : ℕ)
    → cfg.requests < two63
    → 0 < total
    → total < two63
    → sum_requests (shards cfg total) ≡ cfg.requests
shards-sum cfg total hr some_workers ht = elim (Bool-cases (leb total 1)) [
  | inl single ↦ sum_single cfg total some_workers single
  | inr several ↦ elim (Bool-cases (nat_beq cfg.requests 0)) [
    | inl none_wanted ↦ sum_nothing cfg total (ground (arith, none_wanted))
    | inr wanted ↦
        sum_positive cfg total hr (λ e. ground (arith, e, wanted)) (ground (arith, several)) ht
  ]
]

shard_fields :
    (cfg : Config) (i total : ℕ)
    → shard_config cfg i total ≡ record cfg { requests = (shard_config cfg i total).requests }
unfolding shard_config
shard_fields cfg i total = ground arith

-- Every shard is the run's configuration but for the requests, and no two shards differ by more
-- than one request.
pub shard_config-even :
    (cfg : Config) (i j total : ℕ)
    → cfg.requests < two63
    → i < total
    → j < total
    → total < two63
    → (shard_config cfg i total ≡ record cfg { requests = (shard_config cfg i total).requests })
      × ((shard_config cfg i total).requests ≤ (shard_config cfg j total).requests + 1)
shard_config-even cfg i j total hr hi hj ht = elim (Bool-cases (leb total 1)) [
  | inl single ↦ (shard_fields cfg i total, ground arith)
  | inr several ↦ (
    shard_fields cfg i total,
    ground (
      arith,
      shard_share cfg i total hr hi (ground (arith, several)) ht,
      shard_share cfg j total hr hj (ground (arith, several)) ht,
    ),
  )
]

starved_requests :
    (cfg : Config) (i total : ℕ)
    → 0 < cfg.requests
    → cfg.requests ≤ i
    → i < total
    → total < two63
    → (shard_config cfg i total).requests ≡ 0
starved_requests cfg i total wanted past hi ht =
    let q : cfg.requests / total ≡ 0 = div-eq_of_lt {n = cfg.requests} (omega arith) in
    let r : cfg.requests % total ≡ cfg.requests = mod-eq_of_lt {n = cfg.requests} (omega arith) in
    shard_share cfg i total (omega arith) hi (omega arith) ht ∙ ground (arith, q, r)

starved_invalid :
    (f : Floats) (u : Urls) (c : Config)
    → c.requests ≡ 0
    → c.duration ≡ 0
    → ¬ (validate f u c ≡ none)
starved_invalid f u c nothing no_time passed = elim ((validate_iff f u c).0 passed).bounded [
  | inl h ↦ h no_time
  | inr h ↦ h nothing
]

starved_limit :
    (f : Floats) (u : Urls) (c : Config)
    → c.requests ≡ 0
    → (c.duration ≢ 0) ⊎ (validate f u c ≢ none)
starved_limit f u c nothing = elim (Bool-cases (nat_beq c.duration 0)) [
  | inl zero_duration ↦
      inr (λ passed. starved_invalid f u c nothing (ground (arith, zero_duration)) passed)
  | inr limited ↦ inl (λ e. ground (arith, e, limited))
]

-- With more workers than requests, a worker past the last request gets a configuration without any
-- limit on requests: it runs for the whole duration if there is one, and does not pass Validate on
-- the worker otherwise.
pub shard_config-starved :
    (f : Floats) (u : Urls) (cfg : Config) (i total : ℕ)
    → 0 < cfg.requests
    → cfg.requests ≤ i
    → i < total
    → total < two63
    → ((shard_config cfg i total).requests ≡ 0)
      × (((shard_config cfg i total).duration ≢ 0)
          ⊎ (validate f u (shard_config cfg i total) ≢ none))
shard_config-starved f u cfg i total wanted past hi ht =
    let nothing = starved_requests cfg i total wanted past hi ht in
    (nothing, starved_limit f u (shard_config cfg i total) nothing)
