-- ===== src/Autotracing/CpuIdle/Percent.antt =====
-- The percentages of core/autotracing/cpuidle.go as numbers without wrap-around.
use jidick.Base.{
  ℕ, ◌+◌, ◌-◌, ◌*◌, ◌/◌, ◌≤◌, ◌<◌, ◌^◌, ◌≡◌, ◌↔◌, refl, arith, true, ltb, ltb_s64, ◌&&◌, ◌||◌,
  sub64, mul64, quot_s64, ◌⊎◌,
}
use native.Mathlib.Nat.{div-le_self}
use jidick.Autotracing.CpuIdle.{percentage}

-- The percentages of the cores that a use of the CPUs from `a` to `b` is.
abbrev pub share : ℕ → ℕ → ℕ → ℕ → ℕ
share elapsed cores a b = 100 * (b - a) / elapsed / cores

quot_s64_exact : (a b : ℕ) → a < 2 ^ 63 → b < 2 ^ 63 → quot_s64 a b ≡ a / b
quot_s64_exact a b h i = ground arith

percentage-share :
    (elapsed cores a b : ℕ)
    → a ≤ b
    → b < 2 ^ 56
    → elapsed < 2 ^ 63
    → cores < 2 ^ 63
    → percentage elapsed cores (sub64 b a) ≡ share elapsed cores a b
percentage-share elapsed cores a b le hb he hc =
    let used : sub64 b a ≡ b - a = omega arith in
    let scaled : mul64 100 (b - a) ≡ 100 * (b - a) = omega arith in
    let fits : 100 * (b - a) < 2 ^ 63 = omega arith in
    let shrinks = div-le_self (100 * (b - a)) elapsed in
    rw (used, scaled, quot_s64_exact (100 * (b - a)) elapsed fits he)
      (quot_s64_exact (100 * (b - a) / elapsed) cores (omega arith) hc)

share-lt : (elapsed cores a b : ℕ) → b < 2 ^ 56 → share elapsed cores a b < 2 ^ 63
share-lt elapsed cores a b h =
    let once = div-le_self (100 * (b - a)) elapsed in
    let twice = div-le_self (100 * (b - a) / elapsed) cores in omega arith

jump_exact :
    (t p prev : ℕ)
    → t < 2 ^ 62
    → p < 2 ^ 63
    → prev < 2 ^ 62
    → ltb_s64 t (sub64 p prev) ≡ ltb (t + prev) p
jump_exact t p prev ht hp hprev = ground arith

pub above_exact : (t p : ℕ) → t < 2 ^ 63 → p < 2 ^ 63 → ltb_s64 t p ≡ ltb t p
above_exact t p ht hp = ground arith

-- A kind of use that reached its threshold after a jump.
abbrev pub Jump : ℕ → ℕ → ℕ → ℕ → Type 0
Jump usage_threshold delta_threshold prev now =
    (usage_threshold < now) × (delta_threshold + prev < now)

pub test_jump :
    (u d prev elapsed cores a b : ℕ)
    → u < 2 ^ 56
    → d < 2 ^ 56
    → prev < 2 ^ 56
    → a ≤ b
    → b < 2 ^ 56
    → elapsed < 2 ^ 63
    → cores < 2 ^ 63
    → let p = percentage elapsed cores (sub64 b a) in
      let s = share elapsed cores a b in
      (ltb_s64 u p && ltb_s64 d (sub64 p prev)) ≡ (ltb u s && ltb (d + prev) s)
test_jump u d prev elapsed cores a b hu hd hprev le hb he hc =
    let small = share-lt elapsed cores a b hb in
    rw
      (
        percentage-share elapsed cores a b le hb he hc,
        above_exact u (share elapsed cores a b) (omega arith) small,
        jump_exact d (share elapsed cores a b) prev (omega arith) small (omega arith),
      )
      refl

pub jumps_iff :
    (i s u₁ d₁ u₂ d₂ u₃ d₃ p₁ n₁ p₂ n₂ p₃ n₃ : ℕ)
    → ((ltb i s
          && (ltb u₁ n₁ && ltb (d₁ + p₁) n₁
              || ltb u₂ n₂ && ltb (d₂ + p₂) n₂
              || ltb u₃ n₃ && ltb (d₃ + p₃) n₃))
        ≡ true)
      ↔ ((i < s) × (Jump u₁ d₁ p₁ n₁ ⊎ Jump u₂ d₂ p₂ n₂ ⊎ Jump u₃ d₃ p₃ n₃))
jumps_iff i s u₁ d₁ u₂ d₂ u₃ d₃ p₁ n₁ p₂ n₂ p₃ n₃ = ground arith
