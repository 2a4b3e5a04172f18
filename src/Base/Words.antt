-- ===== src/Base/Words.antt =====
-- `u64` arithmetic with its wrap-around, and the units of the clock.
use Prim.Native.Nat.{ℕ, ◌+◌, ◌-◌, ◌*◌, ◌/◌, ◌%◌, ◌^◌}
use mathlib.Core.Bool.{Bool}
use jidick.Base.Tests.{ltb, leb, if◌then◌else◌}

abbrev pub u64_mod : ℕ
u64_mod = 2 ^ 64

-- `a + b` on `u64`, also what `__sync_fetch_and_add(&a, b)` leaves in `a`.
abbrev pub add64 : ℕ → ℕ → ℕ
add64 a b = (a + b) % u64_mod

-- `a - b` on `u64`.
abbrev pub sub64 : ℕ → ℕ → ℕ
sub64 a b = (a + u64_mod - b) % u64_mod

abbrev pub mul64 : ℕ → ℕ → ℕ
mul64 a b = a * b % u64_mod

-- Comparisons of `int64` bit patterns, and their quotient, rounded towards zero.
abbrev pub ltb_s64 : ℕ → ℕ → Bool
ltb_s64 a b = ltb (add64 a (2 ^ 63)) (add64 b (2 ^ 63))

abbrev pub leb_s64 : ℕ → ℕ → Bool
leb_s64 a b = leb (add64 a (2 ^ 63)) (add64 b (2 ^ 63))

abbrev pub abs_s64 : ℕ → ℕ
abs_s64 a = if ltb a (2 ^ 63) then a else sub64 0 a

abbrev pub quot_s64 : ℕ → ℕ → ℕ
quot_s64 a b =
    let q = abs_s64 a / abs_s64 b in
    if ltb a (2 ^ 63)
    then (if ltb b (2 ^ 63) then q else sub64 0 q)
    else if ltb b (2 ^ 63)
    then sub64 0 q
    else q

abbrev pub nsec_per_sec : ℕ
nsec_per_sec = 1000000000

abbrev pub nsec_per_msec : ℕ
nsec_per_msec = 1000000

abbrev pub nsec_per_usec : ℕ
nsec_per_usec = 1000
