-- ===== src/Gate/Tests.antt =====
-- Runs of the gate, and the theorems at concrete gates.
use native.Mathlib.Decide.{ℕ_discrete}
use tuicord_v.Base.{ℕ, ◌≤◌, ◌≡◌, refl, true, false, [], ◌∷◌, arith}
use tuicord_v.Gate.Flight.{Airspace, Reach, take_off, reset, idle, next, count, Reach-IsControlled}
use tuicord_v.Gate.{
  LoadGate, empty_gate, begin_version, finish_version, finish_older_version, invalidate,
  mark_loaded,
}

program : Unit {0}
unfolding empty_gate begin_version finish_version finish_older_version invalidate mark_loaded
    ℕ_discrete
program = tt

-- A load of channel 7 begins, the channel is invalidated, and a new load begins.
abbrev started : LoadGate ℕ
started = (begin_version ℕ_discrete empty_gate 7).0

abbrev fresh : LoadGate ℕ
fresh = invalidate ℕ_discrete started 7

restarted : (begin_version ℕ_discrete fresh 7).1 ≡ (1, true)
unfolding program
restarted = refl

refused : (begin_version ℕ_discrete started 7).1 ≡ (0, false)
unfolding program
refused = refl

abbrev sky : Airspace ℕ_discrete 7
sky = record { gate = fresh; flights = 0 ∷ [] }

sky_reached : Reach ℕ_discrete 7 sky
unfolding program
sky_reached =
    next (next idle (take_off (record { gate = empty_gate; flights = [] }) refl))
      (reset (record { gate = started; flights = 0 ∷ [] }) (omega arith))

Reach-IsControlled_example :
    (count (sky.gate.version 7) sky.flights ≤ 1)
    × (sky.gate.pending 7 ≡ true → count (sky.gate.version 7) sky.flights ≡ 1)
    × (sky.gate.pending 7 ≡ false → count (sky.gate.version 7) sky.flights ≡ 0)
Reach-IsControlled_example = Reach-IsControlled ℕ_discrete 7 sky_reached
