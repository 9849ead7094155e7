-- ===== src/Gauge/Values.antt =====
-- What the measuring functions of bq27441.cpp deliver.
use example_ublox_mbed_clien.Prelude.{
  ℕ, ◌+◌, ◌*◌, ◌<◌, ◌≡◌, refl, ◌⊎◌, inl, inr, true, false, Bool, some, none, Option, List, [], ◌∷◌,
  arith, ℤ, pos, negsuc, ◌≤ℤ◌, u8, Bool-cases, ◌&&◌, is_some,
}
use example_ublox_mbed_clien.Act.{Act, done, ◌>>=◌, attempt, pure}
use example_ublox_mbed_clien.Gauge.{Gauge, i2c_read, i2c_write, lock, read, write_with, Event}
use example_ublox_mbed_clien.Gauge.Chip.{get_two_bytes, two_bytes_value}
use example_ublox_mbed_clien.Gauge.Entry.{when_ready, with_lock}
use example_ublox_mbed_clien.Gauge.Readings.{
  Reading, get_temperature, get_voltage, get_current, to_celsius, measure, read_register,
  no_reading,
}
use mathlib.Core.Option
use example_ublox_mbed_clien.Act.Yields.{
  Yields-done, Yields, Yields-bind, Yields-last, Yields-pure, Yields-gets, Yields-attempt,
  Yields-if, Yields-expect, IfSome,
}

-- The two bytes make a `uint16_t`.
get_two_bytes-lt : (r : ℕ) → Yields (λ v. v < 65536) (get_two_bytes r)
unfolding get_two_bytes read
get_two_bytes-lt r = Yields-last _ _ (λ _. Yields-last _ _ (λ _. Yields-last _ _ (λ _.
    Yields-bind {V = λ b. two_bytes_value b < 65536} _ _
      (Yields-last _ _
        (λ _. Yields-last _ _ (λ _. Yields-last _ _ (λ _. Yields-gets _ (λ g. omega arith)))))
      (λ b h. Yields-pure _ h))))

-- A reading that delivers nothing, or the conversion of some 16-bit register value.
abbrev pub Delivers : {A : Type 0} → (ℕ → A) → Reading A → Type 0
Delivers convert r =
    ((r.stored ≡ none) × (r.success ≡ false))
    ⊎ ((v : ℕ) × (v < 65536) × (r.stored ≡ some (convert v)))

some-Delivers :
    {A : Type 0} (convert : ℕ → A) (value : Option ℕ) (slept : Bool)
    → IfSome (λ v. v < 65536) value
    → Delivers convert
        (record { success = is_some value && slept; stored = Option.map convert value })
some-Delivers convert none slept h = inl (refl, refl)
some-Delivers convert (some v) slept h = inr (v, h, refl)

pub register-Delivers :
    {A : Type 0} (register : ℕ) (convert : ℕ → A)
    → Yields (Delivers convert) (read_register register convert)
register-Delivers register convert =
    Yields-bind {V = IfSome (λ v. v < 65536)} _ _ (Yields-attempt _ (get_two_bytes-lt register))
      (λ value h. Yields-last _ _ (λ slept. Yields-pure _ (some-Delivers convert value _ h)))

module _ {A : Type 0} {V : A → Type 0} (m : Act Gauge A) where
  Yields-with_lock : Yields V m → Yields V (with_lock m)
  unfolding with_lock
  Yields-with_lock km = Yields-last _ _ (λ _.
      Yields-bind {V = IfSome V} _ _ (Yields-attempt m km)
        (λ r h. Yields-last _ _ (λ _. Yields-expect r h)))

  Yields-when_ready : (o : Act Gauge A) → Yields V m → Yields V o → Yields V (when_ready m o)
  unfolding when_ready
  Yields-when_ready o km ko = record {
    at = λ g. elim (Bool-cases (g.ready && g.i2c)) [
      | inl e ↦ rw e (km.at g)
      | inr e ↦ rw e (ko.at g)
    ];
  }

pub Yields-measure :
    {A : Type 0} {V : A → Type 0} (m o : Act Gauge A)
    → Yields V m
    → Yields V o
    → Yields V (measure m o)
unfolding measure
Yields-measure m o km ko =
    Yields-when_ready _ o (Yields-last _ _ (λ awake. Yields-if _ _ _ (Yields-with_lock m km) ko)) ko

-- What a getter of a register delivers, in every outcome that is not undefined behaviour.
getter-Delivers :
    (register : ℕ) (convert : ℕ → ℤ) (g : Gauge) {r : Reading ℤ}
    → (measure (read_register register convert) (pure no_reading) g).0 ≡ done r
    → Delivers convert r
getter-Delivers register convert g e =
    Yields-done
      (Yields-measure _ _ (register-Delivers register convert) (Yields-pure _ (inl (refl, refl)))) e

celsius_bounds : (v : ℕ) → v < 65536 → (negsuc 272 ≤ℤ to_celsius v) × (to_celsius v ≤ℤ pos 6280)
unfolding to_celsius
celsius_bounds v h = ground arith

module _ (g : Gauge) (r : Reading ℤ) where
  -- If getTemperature returns, it has stored nothing and failed, or it has stored a temperature
  -- between -273 and 6280 degrees Celsius.
  pub get_temperature_bounds :
      (get_temperature g).0 ≡ done r
      → ((r.stored ≡ none) × (r.success ≡ false))
        ⊎ ((t : ℤ) × (r.stored ≡ some t) × (negsuc 272 ≤ℤ t) × (t ≤ℤ pos 6280))
  unfolding get_temperature
  get_temperature_bounds e = elim (getter-Delivers 0x02 to_celsius g e) [
    | inl nothing ↦ inl nothing
    | inr (v, h, stored) ↦
        inr (to_celsius v, stored, (celsius_bounds v h).0, (celsius_bounds v h).1)
  ]

  -- Whatever the chip answers, a call of getCurrent that returns true has stored 0.
  pub get_current-zero : (get_current g).0 ≡ done r → r.success ≡ true → r.stored ≡ some (pos 0)
  unfolding get_current
  get_current-zero e s = elim (getter-Delivers 0x10 (λ _. pos 0) g e) [
    | inl nothing ↦ cc
    | inr (v, h, stored) ↦ stored
  ]

-- The trace of a getter on a chip that is awake, up to its last transfer.
abbrev register_asked : ℕ → Gauge → List Event
register_asked register g =
    i2c_read g.address (pos 2) ∷ i2c_write g.address (register ∷ []) false ∷ lock ∷ g.trace

-- With gauging on and a chip that acknowledges the two transfers, getVoltage succeeds and stores
-- the two bytes at 0x04, low byte first.
pub get_voltage-value :
    (g : Gauge)
    → g.ready ≡ true
    → g.i2c ≡ true
    → g.gauge_on ≡ true
    → g.ack (i2c_write g.address (0x04 ∷ []) false ∷ lock ∷ g.trace) ≡ true
    → g.ack (register_asked 0x04 g) ≡ true
    → (get_voltage g).0
      ≡ done (record {
        success = true;
        stored = some (
            pos (
              u8 (g.byte (register_asked 0x04 g) 1) * 256 + u8 (g.byte (register_asked 0x04 g) 0)));
      })
unfolding get_voltage get_two_bytes read write_with ◌>>=◌ attempt
get_voltage-value g ready present on asked answered = ground arith
