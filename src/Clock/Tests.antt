-- ===== src/Clock/Tests.antt =====
-- The clock at the last step of a day.
use radix_os.Base.{arith, refl, ◌≡◌, ◌⊎◌}
use radix_os.Clock.{KTime, update_system_time}
use radix_os.Clock.Day.{IsTime, since_midnight, update_system_time_lem}

abbrev last_step : KTime
last_step = record {
  msec = 990;
  sec = 59;
  min = 59;
  hour = 23;
  day = 31;
  month = 12;
  year = 2018;
  weekday = 1;
}

last_step-IsTime : IsTime last_step
last_step-IsTime = record {
  msec = omega arith;
  step = refl;
  sec = omega arith;
  min = omega arith;
  hour = omega arith;
}

update_system_time_lem_example :
    let u = update_system_time last_step in
    IsTime u
    × (u.month ≡ 12)
    × (u.year ≡ 2018)
    × (((since_midnight u ≡ 86400000) × (u.day ≡ 31) × (u.weekday ≡ 1))
        ⊎ ((since_midnight last_step ≡ 86399990)
            × (since_midnight u ≡ 0)
            × (u.day ≡ 32)
            × (u.weekday ≡ 2)))
update_system_time_lem_example = update_system_time_lem last_step last_step-IsTime
