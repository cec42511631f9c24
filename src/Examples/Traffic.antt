-- ===== src/Examples/Traffic.antt =====
-- Frames of the WebSocket runner, and a run of internal/engine with two workers.
use perf_loadgen.Base.{
  ◌≤◌, ◌≡◌, refl, ◌⊎◌, List, [], ◌∷◌, ◌++◌, Option, none, some, arith, Text, codes, Time, get_elem?,
  ok,
}
use perf_loadgen.Engine.{claim, PayloadPicker, QpsPacer}
use perf_loadgen.Engine.Counter
use perf_loadgen.Engine.Counter.{Run, turn, Steps, same, claims, starting, Steps-limit}
use perf_loadgen.Engine.Pacing.{schedule, SpacedFrom, NotBefore, schedule-SpacedFrom}
use perf_loadgen.Protocol.Frames.{Byte, write_frame, read_frame}
use perf_loadgen.Protocol.Frames.Roundtrip.{AreBytes, read_frame-write_frame}

abbrev key : List Byte
key = 7 ∷ 0 ∷ 255 ∷ 66 ∷ []

abbrev hello : List Byte
hello = 104 ∷ 105 ∷ 0 ∷ 200 ∷ 33 ∷ []

hello-AreBytes : AreBytes hello
hello-AreBytes = (omega arith, (omega arith, (omega arith, (omega arith, (omega arith, tt)))))

read_frame-write_frame_example :
    read_frame (write_frame 1 key hello ++ (129 ∷ 0 ∷ [])) ≡ ok (1, hello, 129 ∷ 0 ∷ [])
read_frame-write_frame_example =
    read_frame-write_frame 1 key hello (129 ∷ 0 ∷ []) (omega arith) refl hello-AreBytes
      (omega arith)

abbrev one_turn : Run
one_turn = turn 1 0 (starting 2)

first_claims : Steps 1 (starting 2) one_turn
first_claims = claims 0 same refl

second_between : get_elem? one_turn.workers 1 ≡ some Counter.between
unfolding turn claim
second_between = refl

Steps-limit_example :
    ((turn 1 1 one_turn).begun ≤ 1)
    × (((turn 1 1 one_turn).issued ≤ 1) ⊎ ((turn 1 1 one_turn).begun ≡ 1))
Steps-limit_example =
    Steps-limit 1 2 (omega arith) (omega arith) (turn 1 1 one_turn)
      (claims 1 first_claims second_between)

abbrev three : PayloadPicker
three = record { payloads = codes "a" ∷ codes "b" ∷ codes "c" ∷ []; files = []; index = 0 }

abbrev empty_disk : Text → Option Text
empty_disk path = none

abbrev arrivals : List Time
arrivals = 100 ∷ 101 ∷ 150 ∷ []

abbrev tens : QpsPacer
tens = record { next = 0; interval = 10 }

schedule-SpacedFrom_example :
    SpacedFrom 10 0 (schedule arrivals tens) × NotBefore arrivals (schedule arrivals tens)
schedule-SpacedFrom_example = schedule-SpacedFrom arrivals tens (omega arith)
