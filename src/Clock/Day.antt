-- ===== src/Clock/Day.antt =====
-- `update_system_time` counts the milliseconds of the day.
use radix_os.Base.{
  Bool-cases, arith, inl, inr, leb, refl, ℕ, ◌%◌, ◌*◌, ◌+◌, ◌<◌, ◌==◌, ◌^◌, ◌≡◌, ◌⊎◌,
}
use radix_os.Clock.{KTime, update_system_time}

-- a time of day, in steps of 10 milliseconds
pub record IsTime (t : KTime) : Type 0 where
  pub msec : t.msec < 1000
  pub step : t.msec % 10 ≡ 0
  pub sec : t.sec < 60
  pub min : t.min < 60
  pub hour : t.hour < 24

-- the milliseconds since midnight
abbrev pub since_midnight : KTime → ℕ
since_midnight t = ((t.hour * 60 + t.min) * 60 + t.sec) * 1000 + t.msec

-- A proper time of day stays one, and is 10 milliseconds later on the same day; or it was the last
-- one of the day and is midnight, and the day and the weekday have gone up by one. The month and
-- the year never change, and so the day does not come back to 1, nor the weekday to 0, before
-- their 8 bits are full.
pub update_system_time_lem :
    (t : KTime)
    → IsTime t
    → let u = update_system_time t in
      IsTime u
      × (u.month ≡ t.month)
      × (u.year ≡ t.year)
      × (((since_midnight u ≡ since_midnight t + 10) × (u.day ≡ t.day) × (u.weekday ≡ t.weekday))
          ⊎ ((since_midnight t ≡ 86399990)
              × (since_midnight u ≡ 0)
              × (u.day ≡ (t.day + 1) % 256)
              × (u.weekday ≡ (t.weekday + 1) % 256)))
unfolding update_system_time
update_system_time_lem t v = elim (Bool-cases (leb 1000 ((t.msec + 10) % 2 ^ 16))) [
  | inr same_second ↦ rw same_second (
    record {
      msec = ground (arith, v.msec);
      step = omega (arith, v.msec, v.step);
      sec = v.sec;
      min = v.min;
      hour = v.hour;
    },
    refl,
    refl,
    inl (omega (arith, v.msec), refl, refl),
  )
  | inl second ↦ elim (Bool-cases (leb 60 ((t.sec + 1) % 2 ^ 8))) [
    | inr same_minute ↦
        rw (second, same_minute)
          (
            record {
              msec = omega arith;
              step = refl;
              sec = ground arith;
              min = v.min;
              hour = v.hour;
            },
            refl,
            refl,
            inl (ground (arith, second, v.msec, v.step, v.sec), refl, refl),
          )
    | inl minute ↦ elim (Bool-cases ((t.min + 1) % 2 ^ 8 == 60)) [
      | inr same_hour ↦
          rw (second, minute, same_hour)
            (
              record {
                msec = omega arith;
                step = refl;
                sec = omega arith;
                min = ground (arith, v.min);
                hour = v.hour;
              },
              refl,
              refl,
              inl (ground (arith, second, minute, v.msec, v.step, v.sec, v.min), refl, refl),
            )
      | inl hour ↦ elim (Bool-cases ((t.hour + 1) % 2 ^ 8 == 24)) [
        | inr same_day ↦
            rw (second, minute, hour, same_day)
              (
                record {
                  msec = omega arith;
                  step = refl;
                  sec = omega arith;
                  min = omega arith;
                  hour = ground (arith, v.hour);
                },
                refl,
                refl,
                inl (
                  ground (arith, second, minute, hour, v.msec, v.step, v.sec, v.min, v.hour),
                  refl,
                  refl,
                ),
              )
        | inl midnight ↦
            rw (second, minute, hour, midnight)
              (
                record {
                  msec = omega arith;
                  step = refl;
                  sec = omega arith;
                  min = omega arith;
                  hour = omega arith;
                },
                refl,
                refl,
                inr (
                  ground
                      (arith, second, minute, hour, midnight, v.msec, v.step, v.sec, v.min, v.hour),
                  refl,
                  refl,
                  refl,
                ),
              )
      ]
    ]
  ]
]
