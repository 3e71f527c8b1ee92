-- ===== src/Utility.antt =====
-- kernel/libk/utility.c: arithmetic.
use radix_os.Base.{Bool, if◌then◌else◌, not, ℕ, ◌%◌, ◌+◌, ◌/◌, ◌==◌, ◌^◌}

unfoldable pub ceil_division : ℕ → ℕ → ℕ
ceil_division value divisor =
    let div = value / divisor in
    let rem = value % divisor in if not (rem == 0) then (div + 1) % 2 ^ 32 else div

pub is_aligned : ℕ → ℕ → Bool
is_aligned value with = value % with == 0
