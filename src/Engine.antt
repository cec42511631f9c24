-- ===== src/Engine.antt =====
-- internal/engine: the request counter, the rotation of payloads and the pacer.
pub mod Counter
pub mod Rotation
pub mod Pacing
pub mod Report
pub mod RampUp
pub mod Settled
use perf_loadgen.Base.{
  ℕ, zero, suc, ◌+◌, ◌%◌, Bool, true, false, not, ◌||◌, List, [], ◌∷◌, Option, none, some, ltb, leb,
  nat_beq, if◌then◌else◌, length, get_elem?, get_or, set, Text, is_empty, Int64, two64, add64, lt64,
  le64, is_pos64, Floats, Float64, Time, Duration, second, time_is_zero,
}
use perf_loadgen.Config.{Config}

-- engine.go: `issued.Add(1)` and the test that follows it; whether the worker goes on.
unfoldable pub claim : Int64 → Int64 → Int64 × Bool
claim requests issued =
    if is_pos64 requests
    then (add64 issued 1, not (lt64 requests (add64 issued 1)))
    else (issued, true)

-- payloads.go.
pub record PayloadPicker : Type 0 where
  pub payloads : List Text
  pub files : List Text
  pub index : ℕ

unfoldable pub new_payload_picker : Config → PayloadPicker
new_payload_picker cfg =
    if ltb 0 (length cfg.payload_files)
    then record { payloads = []; files = cfg.payload_files; index = 0 }
    else if ltb 0 (length cfg.payloads)
    then record { payloads = cfg.payloads; files = []; index = 0 }
    else if ltb 0 (length cfg.body)
    then record { payloads = cfg.body ∷ []; files = []; index = 0 }
    else record { payloads = []; files = []; index = 0 }

-- `p.index.Add(1)`, for a uint64.
abbrev pub advance : PayloadPicker → PayloadPicker
advance p = record p { index = add64 p.index 1 }

abbrev pub or_nil : Option Text → Text
or_nil none = []
or_nil (some data_) = data_

-- `Next`, for a file system; a nil body is empty.
unfoldable pub next_payload : (Text → Option Text) → PayloadPicker → Text × PayloadPicker
next_payload read_file p =
    if ltb 0 (length p.files)
    then (or_nil (read_file (get_or p.files (p.index % length p.files) [])), advance p)
    else if nat_beq (length p.payloads) 0
    then ([], p)
    else if nat_beq (length p.payloads) 1
    then (get_or p.payloads 0 [], p)
    else (get_or p.payloads (p.index % length p.payloads) [], advance p)

-- pacer.go: `none` is the pacer that never waits.
pub record QpsPacer : Type 0 where
  pub next : Time
  pub interval : Duration

unfoldable pub new_pacer : Floats → Float64 → Option QpsPacer
new_pacer f qps =
    let interval = f.trunc_int (f.fdiv (f.of_int second) qps) in
    if f.fle qps (f.lit 0 1)
    then none
    else some (record { next = 0; interval = if le64 interval 0 then 1 else interval })

-- The part of `Wait` under the lock: the time that the caller waits for. Times do not wrap.
unfoldable pub reserve : Time → QpsPacer → Time × QpsPacer
reserve now p =
    let scheduled = if time_is_zero p.next || ltb p.next now then now else p.next in
    (scheduled, record p { next = scheduled + p.interval })
