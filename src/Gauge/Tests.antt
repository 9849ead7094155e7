-- ===== src/Gauge/Tests.antt =====
-- The theorems about bq27441.cpp at concrete inputs.
use example_ublox_mbed_clien.Prelude.{
  Bool, ℕ, ◌+◌, ◌%◌, ◌<◌, ◌≡◌, ◌≢◌, refl, ◌⊎◌, true, false, some, none, List, [], ◌∷◌, ◌++◌, arith,
  pos, negsuc, length, ◌≤ℤ◌, ℤ, ◌==◌, if◌then◌else◌,
}
use example_ublox_mbed_clien.Act.{done, fault, ◌>>=◌, attempt}
use example_ublox_mbed_clien.Act.Safe.{IsDefined}
use example_ublox_mbed_clien.Gauge.{Gauge, Event, i2c_write, write_with, read}
use example_ublox_mbed_clien.Gauge.Chip.{compute_checksum, is_sealed, seal, unseal, get_two_bytes}
use example_ublox_mbed_clien.Gauge.Extended.{
  open_block, read_extended_data, replace_data, in_one_block,
}
use example_ublox_mbed_clien.Gauge.Power
use example_ublox_mbed_clien.Gauge.Readings.{
  Reading, to_celsius, get_temperature, get_current, get_voltage,
}
use example_ublox_mbed_clien.Gauge.Calls.{init, get_voltage as voltage_call, run_call, run_calls}
use example_ublox_mbed_clien.Gauge.Discipline.{IsIdle}
use example_ublox_mbed_clien.Gauge.Discipline.Clients.{run_calls-IsIdle}
use example_ublox_mbed_clien.Gauge.Checksum.{
  total, compute_checksum_complement, compute_checksum_detects,
}
use example_ublox_mbed_clien.Gauge.Values.{
  get_temperature_bounds, get_current-zero, get_voltage-value,
}
use example_ublox_mbed_clien.Gauge.Memory.{replace_data-sends, negative_offset-fault}
use example_ublox_mbed_clien.Gauge.Init.{init-stale, run_call-unready}
use example_ublox_mbed_clien.Gauge.Sealing.{ReportedSealed, read_extended_data-ReportedSealed}

-- A gauge that was set up, on a bus that acknowledges or refuses everything. The bytes that
-- it reads at once are all the same.
abbrev gauge_on_bus : (List Event → Bool) → (List Event → ℕ) → Gauge
gauge_on_bus ack b = record {
  i2c = true;
  address = 0xaa;
  seal_code = 0;
  ready = true;
  gauge_on = true;
  ack = ack;
  byte = λ t _. b t;
  trace = [];
}

abbrev chip : ℕ → Gauge
chip b = gauge_on_bus (λ _. true) (λ _. b)

run_calls-IsIdle_example :
    IsDefined (run_calls (init true 0x55 0 ∷ voltage_call ∷ []) (chip 0)).0
    × IsIdle 0 (run_calls (init true 0x55 0 ∷ voltage_call ∷ []) (chip 0)).1
run_calls-IsIdle_example =
    run_calls-IsIdle 0 (init true 0x55 0 ∷ voltage_call ∷ []) (chip 0) (tt, (tt, tt))
      (record { guarded = tt; depth = refl })

compute_checksum_complement_example :
    (compute_checksum (some (1 ∷ 2 ∷ [])) < 256)
    × ((total (1 ∷ 2 ∷ []) + compute_checksum (some (1 ∷ 2 ∷ []))) % 256 ≡ 255)
compute_checksum_complement_example = compute_checksum_complement (1 ∷ 2 ∷ []) (omega arith)

compute_checksum_detects_example :
    compute_checksum (some ((1 ∷ []) ++ 2 ∷ (3 ∷ [])))
    ≢ compute_checksum (some ((1 ∷ []) ++ 7 ∷ (3 ∷ [])))
compute_checksum_detects_example =
    compute_checksum_detects (1 ∷ []) (3 ∷ []) 2 7 (omega arith) (omega arith) (omega arith)
      (omega arith)

abbrev coldest : Reading ℤ
coldest = record { success = true; stored = some (negsuc 272) }

get_temperature_runs : (get_temperature (chip 0)).0 ≡ done coldest
unfolding get_temperature to_celsius get_two_bytes read write_with ◌>>=◌ attempt
get_temperature_runs = refl

get_temperature_bounds_example :
    ((coldest.stored ≡ none) × (coldest.success ≡ false))
    ⊎ ((t : ℤ) × (coldest.stored ≡ some t) × (negsuc 272 ≤ℤ t) × (t ≤ℤ pos 6280))
get_temperature_bounds_example = get_temperature_bounds (chip 0) coldest get_temperature_runs

abbrev no_current : Reading ℤ
no_current = record { success = true; stored = some (pos 0) }

-- The register holds 0x0707.
get_current_runs : (get_current (chip 7)).0 ≡ done no_current
unfolding get_current get_two_bytes read write_with ◌>>=◌ attempt
get_current_runs = refl

get_current-zero_example : no_current.stored ≡ some (pos 0)
get_current-zero_example = get_current-zero (chip 7) no_current get_current_runs refl

get_voltage-value_example :
    (get_voltage (chip 7)).0 ≡ done (record { success = true; stored = some (pos 0x0707) })
get_voltage-value_example = get_voltage-value (chip 7) refl refl refl refl refl

abbrev zeros : List ℕ
zeros = 0 ∷ 0 ∷ 0 ∷ 0 ∷ []

replace_data_runs : (replace_data zeros (pos 1) (pos 2) (8 ∷ 9 ∷ []) (chip 0)).0 ≡ done tt
unfolding replace_data write_with ◌>>=◌
replace_data_runs = refl

replace_data-sends_example :
    (replace_data zeros (pos 1) (pos 2) (8 ∷ 9 ∷ []) (chip 0)).1.trace
    ≡ i2c_write 0xaa (0x60 ∷ compute_checksum (some (0 ∷ 8 ∷ 9 ∷ 0 ∷ [])) ∷ []) false
      ∷ i2c_write 0xaa (0x41 ∷ 8 ∷ 9 ∷ []) false
      ∷ []
replace_data-sends_example = replace_data-sends (chip 0) zeros (8 ∷ 9 ∷ []) 1 2 replace_data_runs

negative_offset-fault_example :
    ((in_one_block (negsuc 4) (pos 2) (chip 0)).0 ≡ done true)
    × ((replace_data zeros (negsuc 4) (pos 2) (8 ∷ 9 ∷ []) (chip 0)).0 ≡ fault)
negative_offset-fault_example =
    negative_offset-fault (chip 0) zeros (8 ∷ 9 ∷ []) 4 2 (omega arith) (omega arith) (omega arith)
      (omega arith) (λ _. refl) refl

abbrev dead : Gauge
dead = gauge_on_bus (λ _. false) (λ _. 0)

init-stale_example :
    ((Power.init true 0x55 0 dead).0 ≡ done true)
    × ((Power.init true 0x55 0 dead).1.i2c ≡ true)
    × ((Power.init true 0x55 0 dead).1.ready ≡ true)
init-stale_example = init-stale dead true 0x55 0 refl (λ _. refl)

abbrev fresh : Gauge
fresh = record dead { ready = false }

run_call-unready_example : (run_call voltage_call fresh).1 ≡ fresh
run_call-unready_example = run_call-unready voltage_call fresh refl refl

-- A chip that is sealed, accepts the seal code, holds a block of zeros and is then sealed again.
-- What it answers depends on how much was asked before.
abbrev sealed_chip : Gauge
sealed_chip =
    gauge_on_bus (λ _. true)
      (λ t.
        if length t == 14
        then 255
        else if length t == 3
        then 0x20
        else if length t == 20
        then 0x20
        else 0)

is_sealed_runs : (is_sealed sealed_chip).0 ≡ done true
unfolding is_sealed get_two_bytes read write_with ◌>>=◌ attempt
is_sealed_runs = refl

read_extended_data_runs :
    (read_extended_data 64 (pos 0) (pos 2) true sealed_chip).0 ≡ done (0 ∷ 0 ∷ [])
unfolding read_extended_data in_one_block open_block compute_checksum seal unseal is_sealed
    get_two_bytes read write_with ◌>>=◌ attempt
read_extended_data_runs = refl

read_extended_data-ReportedSealed_example :
    ReportedSealed (read_extended_data 64 (pos 0) (pos 2) true sealed_chip).1
read_extended_data-ReportedSealed_example =
    read_extended_data-ReportedSealed sealed_chip 64 (pos 0) (pos 2) true (0 ∷ 0 ∷ [])
      is_sealed_runs read_extended_data_runs
