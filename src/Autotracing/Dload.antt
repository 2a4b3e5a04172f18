-- ===== src/Autotracing/Dload.antt =====
-- core/autotracing/dload.go: the load of a container, and of its tasks that cannot be interrupted,
-- as averages in fixed point, as the kernel keeps them.
pub mod Average
use jidick.Base.{
  ℕ, ◌+◌, ◌-◌, ◌*◌, ◌/◌, ◌%◌, ◌^◌, ltb, add64, sub64, mul64, if◌then◌else◌, List, [], ◌∷◌, Bool,
  true, false, Option, none, some, not, ◌>>=◌,
}

abbrev pub f_shift : ℕ
f_shift = 11

abbrev pub fixed1 : ℕ
fixed1 = 2 ^ f_shift

abbrev pub exp1 : ℕ
exp1 = 1884

abbrev pub exp5 : ℕ
exp5 = 2014

unfoldable pub calc_load : ℕ → ℕ → ℕ → ℕ
calc_load load exp active =
    add64 (add64 (mul64 load exp) (mul64 active (sub64 fixed1 exp))) (2 ^ (f_shift - 1)) / fixed1

-- An array of the averages over one minute and over five.
pub record Averages (A : Type 0) : Type 0 where
  pub one : A
  pub five : A

unfoldable pub calc_loadavg : Averages ℕ → ℕ → Averages ℕ
calc_loadavg avgnrun active =
    let scaled = if ltb 0 active then mul64 active fixed1 else 0 in
    record { one = calc_load avgnrun.one exp1 scaled; five = calc_load avgnrun.five exp5 scaled }

unfoldable pub load_int : ℕ → ℕ
load_int x = x / 2 ^ f_shift

unfoldable pub load_frac : ℕ → ℕ
load_frac x = load_int (mul64 (x % fixed1) 100)

-- A load as the whole number and the hundredths that `getAvenrun` adds up as a `float64`.
pub record Load : Type 0 where
  pub whole : ℕ
  pub hundredths : ℕ

-- One element of what `getAvenrun` returns.
unfoldable pub avenrun : ℕ → ℕ → ℕ → Load
avenrun avgnrun offset shift =
    let load = mul64 (add64 avgnrun offset) (2 ^ shift) in
    record { whole = load_int load; hundredths = load_frac load }

unfoldable pub get_avenrun : Averages ℕ → ℕ → ℕ → Averages Load
get_avenrun avgnrun offset shift = record {
  one = avenrun avgnrun.one offset shift;
  five = avenrun avgnrun.five offset shift;
}

pub record ContainerDloadInfo : Type 0 where
  pub avgnrun : Averages ℕ
  pub load : Averages Load
  pub avgnuni : Averages ℕ
  pub loaduni : Averages Load

unfoldable pub update_load : ContainerDloadInfo → ℕ → ℕ → ContainerDloadInfo
update_load info nr_running nr_uninterruptible =
    let avgnrun = calc_loadavg info.avgnrun (add64 nr_running nr_uninterruptible) in
    let avgnuni = calc_loadavg info.avgnuni nr_uninterruptible in
    record {
      avgnrun = avgnrun;
      load = get_avenrun avgnrun (fixed1 / 200) 0;
      avgnuni = avgnuni;
      loaduni = get_avenrun avgnuni (fixed1 / 200) 0;
    }

-- The updates of a container, each with the numbers of its tasks that run and that wait.
unfoldable pub updates : List (ℕ × ℕ) → ContainerDloadInfo → ContainerDloadInfo
updates [] info = info
updates ((nr_running, nr_uninterruptible) ∷ us) info =
    updates us (update_load info nr_running nr_uninterruptible)
