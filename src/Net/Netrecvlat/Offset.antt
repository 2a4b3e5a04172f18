-- ===== src/Net/Netrecvlat/Offset.antt =====
-- `estMonoWallOffset` of core/events/netrecvlat.go, which sets `mono_wall_offset` of
-- bpf/netrecvlat.c: how far the wall clock is ahead of the monotonic one.
use jidick.Base.{
  ℕ, ◌+◌, ◌-◌, ◌/◌, ◌^◌, ◌≤◌, ◌<◌, ◌≡◌, refl, arith, min, ltb, if◌then◌else◌, Option, none, some,
  List, [], ◌∷◌, map, add64, sub64, ltb_s64, All,
}

-- The nanoseconds of the clocks, read one after the other: the wall, the monotonic, the wall.
pub record Reading : Type 0 where
  pub t1 : ℕ
  pub t2 : ℕ
  pub t3 : ℕ

-- Half of an `int64` bit pattern.
unfoldable half_s64 : ℕ → ℕ
half_s64 x = if ltb x (2 ^ 63) then x / 2 else sub64 0 (sub64 0 x / 2)

-- The locals `bestDelta` and `offset`.
pub record Best : Type 0 where
  pub best_delta : ℕ
  pub offset : ℕ

unfoldable pub best_of : Reading → Best
unfolding half_s64
best_of r = record {
  best_delta = sub64 r.t3 r.t1;
  offset = sub64 (half_s64 (add64 r.t3 r.t1)) r.t2;
}

-- One round; `none` before the first one.
unfoldable pub round : Option Best → Reading → Best
unfolding best_of
round none r = best_of r
round (some best) r = if ltb_s64 (sub64 r.t3 r.t1) best.best_delta then best_of r else best

-- The rounds that are left, of ten; a round in which a clock cannot be read ends the loop with the
-- error.
unfoldable pub rounds : Option Best → List (Option Reading) → Option ℕ
rounds none [] = some 0
rounds (some best) [] = some best.offset
rounds best (none ∷ rs) = none
rounds best (some r ∷ rs) = rounds (some (round best r)) rs

abbrev pub est_mono_wall_offset : List (Option Reading) → Option ℕ
est_mono_wall_offset rs = rounds none rs

-- The wall clock is `o` ahead of the monotonic one while the three are read, in this order; and it
-- counts from a time before the monotonic one does.
pub record Brackets (o : ℕ) (r : Reading) : Type 0 where
  pub before : r.t1 ≤ r.t2 + o
  pub after : r.t2 + o ≤ r.t3
  pub ahead : r.t2 ≤ r.t1
  pub fits : r.t3 < 2 ^ 62

-- The shortest time that a round took, and at most `d`.
abbrev pub shortest : ℕ → List Reading → ℕ
shortest d [] = d
shortest d (r ∷ rs) = shortest (min d (r.t3 - r.t1)) rs

-- `off` is `o`, up to half of `d`.
pub record IsClose (o d off : ℕ) : Type 0 where
  pub not_above : off ≤ o + d / 2
  pub not_below : o ≤ off + (d + 1) / 2

best_of-IsClose :
    (o : ℕ) (r : Reading)
    → Brackets o r
    → ((best_of r).best_delta ≡ r.t3 - r.t1) × IsClose o (r.t3 - r.t1) (best_of r).offset
unfolding best_of half_s64
best_of-IsClose o r h = (ground (arith, h), ground (arith, h))

round-IsClose :
    (o : ℕ) (best : Best) (r : Reading)
    → Brackets o r
    → best.best_delta < 2 ^ 62
    → IsClose o best.best_delta best.offset
    → let best' = round (some best) r in
      (best'.best_delta ≡ min best.best_delta (r.t3 - r.t1))
      × IsClose o best'.best_delta best'.offset
unfolding round
round-IsClose o best r h small close =
    let (delta, close') = best_of-IsClose o r h in ground (arith, delta, close, close', h)

rounds-IsClose :
    (o : ℕ) (best : Best) (rs : List Reading)
    → All (Brackets o) rs
    → best.best_delta < 2 ^ 62
    → IsClose o best.best_delta best.offset
    → (off : ℕ) × (rounds (some best) (map some rs) ≡ some off)
      × IsClose o (shortest best.best_delta rs) off
unfolding rounds
rounds-IsClose o best [] h small close = (best.offset, refl, close)
rounds-IsClose o best (r ∷ rs) h small close =
    let (delta, close') = round-IsClose o best r h.0 small close in
    let (off, is, close'') =
      rounds-IsClose o (round (some best) r) rs h.1 (omega (arith, delta)) close' in
    (off, is, rw delta at close'')

-- If the clocks can be read in every round, and the wall clock is the same `o` ahead in all of them,
-- then the estimate is there, and is `o` up to half of the time that the shortest round took.
pub est_lem :
    (o : ℕ) (r : Reading) (rs : List Reading)
    → All (Brackets o) (r ∷ rs)
    → (off : ℕ) × (est_mono_wall_offset (map some (r ∷ rs)) ≡ some off)
      × IsClose o (shortest (r.t3 - r.t1) rs) off
unfolding rounds round
est_lem o r rs h =
    let (delta, close) = best_of-IsClose o r h.0 in
    let (off, is, close') =
      rounds-IsClose o (best_of r) rs h.1 (omega (arith, delta, h.0.fits))
        (rw (← delta) at close) in
    (off, is, rw delta at close')
