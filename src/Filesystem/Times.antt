-- ===== src/Filesystem/Times.antt =====
-- `systemtime_from` and `systemtimespec_from` of filesystem/mod.rs. `Duration::new` carries the nanoseconds that
-- are a second or more, and panics where the seconds pass a `u64`; a `SystemTime` on Linux has `i64` seconds.
use wasmx.Base.{
  ◌≡◌, refl, sym, ◌∙◌, ◌↔◌, ◌≤◌, ◌<◌, arith, ℕ, ◌+◌, ◌*◌, ◌/◌, ◌%◌, Option, none, some, u64_max,
  ltb, if◌then◌else◌,
}
use wasmx.Filesystem.{
  SystemTime, SystemTimeSpec, symbolic_now, absolute, Outcome, done, fails, panics,
}
use wasmx.Filesystem.Errors.{ErrorCode}

abbrev pub second : ℕ
second = 1_000_000_000

abbrev pub i64_max : ℕ
i64_max = 0x7fff_ffff_ffff_ffff

-- `wall_clock::Datetime`
pub record Datetime : Type 0 where
  pub seconds : ℕ
  pub nanoseconds : ℕ

-- `NewTimestamp`
pub data NewTimestamp : Type 0 where
  no_change now : NewTimestamp
  timestamp : Datetime → NewTimestamp

unfoldable pub systemtime_from : Datetime → Outcome SystemTime ErrorCode
systemtime_from t =
    let seconds = t.seconds + t.nanoseconds / second in
    if ltb u64_max seconds
    then panics
    else if ltb i64_max seconds
    then fails ErrorCode.overflow
    else done (record { seconds = seconds; nanoseconds = t.nanoseconds % second })

abbrev spec_of : Outcome SystemTime ErrorCode → Outcome (Option SystemTimeSpec) ErrorCode
spec_of (done t) = done (some (absolute t))
spec_of (fails e) = fails e
spec_of panics = panics

unfoldable pub systemtimespec_from : NewTimestamp → Outcome (Option SystemTimeSpec) ErrorCode
systemtimespec_from no_change = done none
systemtimespec_from now = done (some symbolic_now)
systemtimespec_from (timestamp st) = spec_of (systemtime_from st)

-- the nanoseconds since the epoch
abbrev pub total : Datetime → ℕ
total t = t.seconds * second + t.nanoseconds

-- The system time `s` is the instant that `t` says, in whole seconds and a part of one.
pub record IsInstant (t : Datetime) (s : SystemTime) : Type 0 where
  pub same : s.seconds * second + s.nanoseconds ≡ total t
  pub part : s.nanoseconds < second
  pub fits : s.seconds ≤ i64_max

parts :
    (t : Datetime) (s : SystemTime)
    → s.seconds * second + s.nanoseconds ≡ total t
    → s.nanoseconds < second
    → (s.seconds ≡ t.seconds + t.nanoseconds / second) × (s.nanoseconds ≡ t.nanoseconds % second)
parts t s e p = (omega arith, omega arith)

taken :
    (t : Datetime)
    → t.seconds + t.nanoseconds / second ≤ i64_max
    → systemtime_from t
      ≡ done (record {
        seconds = t.seconds + t.nanoseconds / second;
        nanoseconds = t.nanoseconds % second;
      })
unfolding systemtime_from
taken t h = ground arith

-- A time of the guest becomes a system time exactly if that is the same instant, with less than a second of
-- nanoseconds and seconds of an `i64`; the answer is `overflow` exactly for the instants from the second after the
-- last of an `i64` to the last of a `u64`; and the host panics exactly for those after it, which only a time with a
-- second of nanoseconds or more can name.
pub systemtime_from_iff :
    (t : Datetime) (s : SystemTime)
    → t.seconds ≤ u64_max
    → ((systemtime_from t ≡ done s) ↔ IsInstant t s)
      × ((systemtime_from t ≡ fails ErrorCode.overflow)
          ↔ (((i64_max + 1) * second ≤ total t) × (total t < (u64_max + 1) * second)))
      × ((systemtime_from t ≡ panics)
          ↔ (((u64_max + 1) * second ≤ total t) × (second ≤ t.nanoseconds)))
unfolding systemtime_from
systemtime_from_iff t s b = (
  (
    λ h. record { same = ground arith; part = ground arith; fits = ground arith },
    λ h.
        let (e, q) = parts t s h.same h.part in
        taken t (omega (arith, e, h.fits)) ∙ rw (sym e, sym q) refl,
  ),
  (λ h. ground arith, λ h. ground arith),
  (λ h. ground arith, λ h. ground arith),
)
