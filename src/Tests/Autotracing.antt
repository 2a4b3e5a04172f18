-- ===== src/Tests/Autotracing.antt =====
-- core/autotracing at concrete samples.
use jidick.Base.{
  ℕ, ◌*◌, ◌≡◌, refl, arith, leb, true, false, none, some, List, [], ◌∷◌, replicate, set?, get_elem?,
  take, nsec_per_sec,
}
use jidick.Autotracing.MemBurst.{
  Process, Inputs, Settings, Tick, start, loop, save, new_history, gather, get_top_memory_processes,
  is_burst, report_if_burst, record_sample, judge, stopped, check_and_record_memory_usage,
}
use jidick.Autotracing.MemBurst.Start.{start_samples, start-samples}

-- Twice the oldest of three samples, and half of the memory; the processes come sorted.
abbrev settings : Settings
settings = record {
  history_window_length = 3;
  silence_period = 300;
  top_n_processes = 1;
  grows = λ current oldest. leb (2 * oldest) current;
  anon_threshold = 50;
  mem_total = 0;
  sort = λ ps. ps;
}

abbrev shell : Process
shell = record { pid = 7; rss = some 900; name = some (115 ∷ 104 ∷ []) }

abbrev sample : ℕ → Inputs
sample kib = record { mem_info = some (kib, 0); processes = some (shell ∷ shell ∷ []) }

abbrev tick : ℕ → ℕ → Tick
tick kib now = record { inputs = sample kib; done = false; now = now * nsec_per_sec }

-- The memory is at 1000 KiB. The burst at 400 is within the silence period of that at 300, and the
-- one at 700 is reported.
abbrev ticks : List Tick
ticks =
    tick 100 100_000
    ∷ tick 600 100_300
    ∷ tick 700 100_400
    ∷ tick 700 100_500
    ∷ record (tick 1400 100_700) { inputs = record (sample 1400) { mem_info = none } }
    ∷ tick 1400 100_700
    ∷ record (tick 1400 100_800) { done = true }
    ∷ []

abbrev begins : ℕ
begins = 100_000 * nsec_per_sec

memory_program : Unit {0}
unfolding start loop save new_history gather get_top_memory_processes is_burst report_if_burst
    record_sample judge check_and_record_memory_usage replicate set? get_elem? take
memory_program = tt

two_reports : start settings (some 1000) begins (sample 100) ticks ≡ (
  (
    100_300 * nsec_per_sec,
    record { pid = 7; process_name = 115 ∷ 104 ∷ []; memory_size = 900 } ∷ [],
  )
      ∷ (
        100_700 * nsec_per_sec,
        record { pid = 7; process_name = 115 ∷ 104 ∷ []; memory_size = 900 } ∷ [],
      )
      ∷ [],
  stopped,
)
unfolding memory_program
two_reports = refl

start-samples_example :
    start settings (some 1000) begins (sample 100) ticks
    ≡ start_samples settings (some 1000) begins (sample 100) ticks
start-samples_example = start-samples settings (some 1000) begins (sample 100) ticks (omega arith)
