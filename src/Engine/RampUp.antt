-- ===== src/Engine/RampUp.antt =====
-- internal/engine/engine.go: the delays after which the workers start.
use perf_loadgen.Base.{
  ℕ, zero, suc, ◌+◌, ◌*◌, ◌/◌, ◌%◌, ◌≤◌, ◌<◌, ◌≡◌, refl, ap, ◌⊎◌, inl, inr, Bool-cases, true, false,
  ◌||◌, List, [], ◌∷◌, some, arith, nat_beq, if◌then◌else◌, length, get_elem?, replicate, two63,
  mul64, le64, is_pos64, quot64, quot64_nonneg, Duration, millisecond,
}
use native.Mathlib.Nat.{div-add-mod', div-le_self, mod-lt, mul-le-mul_right}
use perf_loadgen.Config.{Config}

unfoldable pub step_interval : Config → Duration
step_interval cfg =
    if le64 (quot64 cfg.ramp_up cfg.concurrency) 0
    then millisecond
    else quot64 cfg.ramp_up cfg.concurrency

-- `time.Duration(i) * stepInterval` for the `n` workers from `i`.
unfoldable pub delays_from : ℕ → ℕ → Duration → List Duration
delays_from i zero step = []
delays_from i (suc n) step = mul64 i step ∷ delays_from (suc i) n step

unfoldable pub worker_delays : Config → List Duration
worker_delays cfg =
    let n = if is_pos64 cfg.concurrency then cfg.concurrency else 0 in
    if le64 cfg.ramp_up 0 || nat_beq cfg.concurrency 1
    then replicate n 0
    else delays_from 0 n (step_interval cfg)

delays_from-get :
    (i n step j : ℕ) → j < n → get_elem? (delays_from i n step) j ≡ some (mul64 (i + j) step)
unfolding delays_from
delays_from-get i zero step j h = absurd (omega arith)
delays_from-get i (suc n) step zero h = let e : i + 0 ≡ i = omega arith in rw e refl
delays_from-get i (suc n) step (suc j) h =
    let e : i + suc j ≡ suc i + j = omega arith in
    rw e (delays_from-get (suc i) n step j (omega arith))

length-delays_from : (i n step : ℕ) → length (delays_from i n step) ≡ n
unfolding delays_from
length-delays_from i zero step = refl
length-delays_from i (suc n) step = omega (arith, length-delays_from (suc i) n step)

quotient_positive : (q c m r : ℕ) → q * c + m ≡ r → m < c → c ≤ r → 0 < q
quotient_positive zero c m r e below most = absurd (omega arith)
quotient_positive (suc q) c m r e below most = omega arith

delay_within : (i q c m r : ℕ) → q * c + m ≡ r → i < c → 0 < q → i * q < r
delay_within i q c m r e below positive =
    let most : suc i * q ≤ c * q = mul-le-mul_right q below in omega (arith, most)

module _ (cfg : Config) (several : 0 < cfg.concurrency) (slow : cfg.concurrency ≤ cfg.ramp_up)
    (small : cfg.ramp_up < two63) where
  abbrev step : ℕ
  step = cfg.ramp_up / cfg.concurrency

  product : step * cfg.concurrency + cfg.ramp_up % cfg.concurrency ≡ cfg.ramp_up
  product = div-add-mod' cfg.ramp_up cfg.concurrency

  step-positive : 0 < step
  step-positive =
      quotient_positive step cfg.concurrency (cfg.ramp_up % cfg.concurrency) cfg.ramp_up product
        (mod-lt cfg.ramp_up several) slow

  step_interval_lem : step_interval cfg ≡ step
  unfolding step_interval
  step_interval_lem =
      rw (quot64_nonneg cfg.ramp_up cfg.concurrency small (omega arith))
        (ground (arith, step-positive, div-le_self cfg.ramp_up cfg.concurrency))

  worker_delays-cases :
      ((cfg.concurrency ≡ 1) × (worker_delays cfg ≡ 0 ∷ []))
      ⊎ (worker_delays cfg ≡ delays_from 0 cfg.concurrency step)
  unfolding worker_delays
  worker_delays-cases =
      let positive : is_pos64 cfg.concurrency ≡ true = ground arith in
      let ramped : le64 cfg.ramp_up 0 ≡ false = ground arith in
      elim (Bool-cases (nat_beq cfg.concurrency 1)) [
        | inl one ↦ let e : cfg.concurrency ≡ 1 = ground arith in inl (e, ground arith)
        | inr many ↦ inr (rw (positive, ramped, many, step_interval_lem) refl)
      ]

  delay_lem :
      (i : ℕ)
      → i < cfg.concurrency
      → (get_elem? (worker_delays cfg) i ≡ some (i * step)) × (i * step < cfg.ramp_up)
  delay_lem i h =
      let within : i * step < cfg.ramp_up =
        delay_within i step cfg.concurrency (cfg.ramp_up % cfg.concurrency) cfg.ramp_up product h
          step-positive in
      elim worker_delays-cases [
        | inl (one, e) ↦
            let first : i ≡ 0 = omega arith in (rw (e, first) (ap some (omega arith)), within)
        | inr e ↦ (
          rw (e, delays_from-get 0 cfg.concurrency step i h) (ap some (omega (arith, within))),
          within,
        )
      ]

  all_start : length (worker_delays cfg) ≡ cfg.concurrency
  all_start = elim worker_delays-cases [
    | inl (one, e) ↦ rw (e, one) refl
    | inr e ↦ rw e (length-delays_from 0 cfg.concurrency step)
  ]

  -- Where there is at least one worker, and a ramp-up of at least one nanosecond for each, every
  -- worker starts once: worker i after i times the quotient of the ramp-up and the number of
  -- workers, which is before the ramp-up is over.
  pub worker_delays_lem :
      (length (worker_delays cfg) ≡ cfg.concurrency)
      × ((i : ℕ)
          → i < cfg.concurrency
          → (get_elem? (worker_delays cfg) i ≡ some (i * step)) × (i * step < cfg.ramp_up))
  worker_delays_lem = (all_start, delay_lem)
