-- ===== src/Clock.antt =====
-- The clock of kernel/clock/clock.c, with ktime_t of kernel/include/time.h.
pub mod Day
pub mod Tests
use radix_os.Base.{
  ==_iff, All, All-append, All-get_or, All-imp, All-middle, All-set, Any, Any-left, Any-right, Bool,
  Bool-cases, List, Option, Option-cases, Ordering, [], ap, append-nil, append_assoc, ap₂, arith,
  compare, compare-cases, drop, false, get_elem?, get_elem?-set_ne, get_elem?-set_self, get_or,
  get_or-set, if◌then◌else◌, inl, inr, leb, length, length-append, length-drop, length-map,
  length-replicate, length-set, length-take, le→ltb, ltb, ltb→le, ltb→lt, lt→ltb, map, max, none,
  not, refl, replicate, set, some, subst, suc, sym, take, take-append-drop, true, zero, ℕ, ◌%◌,
  ◌&&◌, ◌*◌, ◌++◌, ◌+◌, ◌-◌, ◌/◌, ◌<◌, ◌==◌, ◌>>=◌, ◌^◌, ◌||◌, ◌↔◌, ◌∙◌, ◌∷◌, ◌≡◌, ◌≢◌, ◌≤◌, ◌⊎◌,
}

pub record KTime : Type 0 where
  pub msec : ℕ
  pub sec : ℕ
  pub min : ℕ
  pub hour : ℕ
  pub day : ℕ
  pub month : ℕ
  pub year : ℕ
  pub weekday : ℕ

-- Each assignment stays within the width of its field.
pub update_system_time : KTime → KTime
update_system_time time =
    let msec = (time.msec + 10) % 2 ^ 16 in
    let sec = (time.sec + 1) % 2 ^ 8 in
    let minute = (time.min + 1) % 2 ^ 8 in
    let hour = (time.hour + 1) % 2 ^ 8 in
    if leb 1000 msec
    then (if leb 60 sec
        then (if minute == 60
            then (if hour == 24
                then record time {
                  msec = 0;
                  sec = 0;
                  min = 0;
                  hour = 0;
                  day = (time.day + 1) % 2 ^ 8;
                  weekday = (time.weekday + 1) % 2 ^ 8;
                }
                else record time { msec = 0; sec = 0; min = 0; hour = hour })
            else record time { msec = 0; sec = 0; min = minute })
        else record time { msec = 0; sec = sec })
    else record time { msec = msec }
