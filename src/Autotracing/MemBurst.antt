-- ===== src/Autotracing/MemBurst.antt =====
-- core/autotracing/memburst.go: the anonymous memory of the host in a circular buffer, and the
-- processes that use most memory when it has grown fast.
pub mod Window
pub mod Start
pub mod Silence
use jidick.Base.{
  ℕ, zero, suc, ◌+◌, ◌-◌, ◌*◌, ◌%◌, ◌^◌, ◌==◌, leb, ltb, leb_s64, quot_s64, mul64, add64,
  nsec_per_sec, Bool, true, false, ◌&&◌, ◌++◌, ◌>>=◌, get_elem?, set?, take, if◌then◌else◌, Option,
  none, some, List, [], ◌∷◌, length, replicate,
}

pub record ProcessMemoryInfo : Type 0 where
  pub pid : ℕ
  pub process_name : List ℕ
  pub memory_size : ℕ

-- A process as gopsutil gives it: `none` where its memory or its name cannot be read.
pub record Process : Type 0 where
  pub pid : ℕ
  pub rss : Option ℕ
  pub name : Option (List ℕ)

-- The loop of `getTopMemoryProcesses` over the processes.
unfoldable pub gather : List Process → List ProcessMemoryInfo
gather [] = []
gather (p ∷ ps) =
    let rest = gather ps in
    elim p.rss [
      | none ↦ rest
      | some rss ↦ elim p.name [
        | none ↦ rest
        | some name ↦ record { pid = p.pid; process_name = name; memory_size = rss } ∷ rest
      ]
    ]

-- What a check reads: the two keys of /proc/meminfo, as `readMemInfo` returns them, with a zero
-- for a key that is missing, and all processes, if they are needed.
pub record Inputs : Type 0 where
  pub mem_info : Option (ℕ × ℕ)
  pub processes : Option (List Process)

-- What `Start` reads first: the configuration and the host's memory. The numbers are `int` bit
-- patterns, save for the two that size something. `grows current oldest` is
-- `float64(current) >= burstRatio*float64(oldest)`.
pub record Settings : Type 0 where
  pub history_window_length : ℕ
  pub silence_period : ℕ
  pub top_n_processes : ℕ
  pub grows : ℕ → ℕ → Bool
  pub anon_threshold : ℕ
  pub mem_total : ℕ
  pub sort : List ProcessMemoryInfo → List ProcessMemoryInfo

-- `sort.Sort(ByMemory(pmInfos))` is `sort`.
unfoldable pub get_top_memory_processes :
    Settings → Option (List Process) → Option (List ProcessMemoryInfo)
unfolding gather take
get_top_memory_processes cfg processes = do
  ps ← processes
  some (take cfg.top_n_processes (cfg.sort (gather ps)))

-- The variables of `Start` that its checks change.
pub record History : Type 0 where
  pub current_index : ℕ
  pub is_history_full : Bool
  pub history : List ℕ

unfoldable pub new_history : ℕ → History
new_history w = record { current_index = 0; is_history_full = false; history = replicate w 0 }

-- What a check returns: the processes, or an error.
abbrev pub Checked : Type 0
Checked = Option (List ProcessMemoryInfo)

-- The test of a sample against the oldest one.
unfoldable pub is_burst : Settings → ℕ → ℕ → Bool
is_burst cfg current oldest =
    cfg.grows current oldest
    && leb_s64 (quot_s64 (mul64 cfg.anon_threshold cfg.mem_total) 100) current

-- What is returned once the sample and the oldest one are known.
unfoldable pub report_if_burst : Settings → Option (List Process) → ℕ → ℕ → Checked
unfolding is_burst
report_if_burst cfg processes current oldest =
    if is_burst cfg current oldest then get_top_memory_processes cfg processes else some []

-- The part of the check that writes the sample into the buffer and moves on. The remainder by a
-- window of length zero comes after the write, which panics first.
unfoldable pub record_sample : Settings → ℕ → History → Option History
record_sample cfg current_sum h = do
  stored ← set? h.history h.current_index current_sum
  some record {
    current_index = (h.current_index + 1) % cfg.history_window_length;
    is_history_full =
        if h.current_index + 1 == cfg.history_window_length then true else h.is_history_full;
    history = stored;
  }

-- The rest of the check: nothing before the buffer is full.
unfoldable pub judge : Settings → Option (List Process) → ℕ → History → Option (History × Checked)
judge cfg processes current_sum h =
    if h.is_history_full
    then (do
      oldest ← get_elem? h.history h.current_index
      some (h, report_if_burst cfg processes current_sum oldest))
    else some (h, some [])

unfoldable pub check_and_record_memory_usage :
    Settings → Inputs → History → Option (History × Checked)
unfolding record_sample judge
check_and_record_memory_usage cfg inputs h = elim inputs.mem_info [
  | none ↦ some (h, some [])
  | some (active, inactive) ↦ do
    h' ← record_sample cfg (add64 active inactive) h
    judge cfg inputs.processes (add64 active inactive) h'
]

-- A tick of the ticker: what the check reads, whether the tracer was cancelled by then, and the
-- time, in nanoseconds on a clock that never goes back.
pub record Tick : Type 0 where
  pub inputs : Inputs
  pub done : Bool
  pub now : ℕ

-- How `Start` ends; it is `waiting` while there is no further tick.
pub data End : Type 0 where
  stopped failed panicked waiting : End

-- What `Start` saved, with the time, and how it ended.
abbrev pub Run : Type 0
Run = List (ℕ × List ProcessMemoryInfo) × End

-- The part of the loop behind a check that returned the processes, if any: what is saved, and
-- when the last report was.
unfoldable pub save :
    Settings → ℕ → ℕ → List ProcessMemoryInfo → List (ℕ × List ProcessMemoryInfo) × ℕ
save cfg now last_report_time [] = ([], last_report_time)
save cfg now last_report_time (p ∷ ps) =
    if ltb (now - last_report_time) (cfg.silence_period * nsec_per_sec)
    then ([], last_report_time)
    else ((now, p ∷ ps) ∷ [], now)

-- The two loops of `Start`: the inner one is left for the outer one, which comes back, or returns.
unfoldable pub loop : Settings → List Tick → ℕ → History → Run
loop cfg [] last_report_time h = ([], waiting)
loop cfg (t ∷ ts) last_report_time h = elim (check_and_record_memory_usage cfg t.inputs h) [
  | none ↦ ([], panicked)
  | some (h', none) ↦ ([], failed)
  | some (h', some top_processes) ↦
      let (saved, last) = save cfg t.now last_report_time top_processes in
      let rest = loop cfg ts last h' in if t.done then ([], stopped) else (saved ++ rest.0, rest.1)
]

abbrev pub day : ℕ
day = 24 * 60 * 60 * nsec_per_sec

-- `Start`, from the reading of MemTotal and the first check, whose result nobody looks at.
unfoldable pub start : Settings → Option ℕ → ℕ → Inputs → List Tick → Run
unfolding loop new_history
start cfg mem_total now first ts = elim mem_total [
  | none ↦ ([], failed)
  | some total ↦
      let cfg' = record cfg { mem_total = total } in
      elim (check_and_record_memory_usage cfg' first (new_history cfg'.history_window_length)) [
        | none ↦ ([], panicked)
        | some (h, none) ↦ ([], failed)
        | some (h, some _) ↦ loop cfg' ts (now - day) h
      ]
]
