-- ===== src/Flamegraph/Samples.antt =====
-- The samples of cmd/perf/parsedata.go: each frame of a stack as a number in one list of names, up
-- to where the pyroscope library merges them. The pairs of the map are given in the order that they
-- are sorted in.
pub mod Names
use mathlib.Core.Logic.{ite}
use jidick.Base.{
  ℕ, zero, suc, ◌+◌, ◌%◌, ◌^◌, ◌==◌, ltb_s64, true, false, Bool, if◌then◌else◌, Option, none, some,
  List, [], ◌∷◌, ◌++◌, ◌>>=◌, map, length,
}
use jidick.Cgroup.CssData.{trim_right}
use jidick.Flamegraph.{String, String-discrete}

-- `eventdata`
pub record EventData : Type 0 where
  pub ustack : List ℕ
  pub kstack : List ℕ
  pub ustack_size : ℕ
  pub kstack_size : ℕ
  pub pid : ℕ
  pub name : List ℕ

-- A pair of `keyValuePairs`.
pub record KeyValue : Type 0 where
  pub key : EventData
  pub value : ℕ

-- A `StacktraceSample`.
pub record Sample : Type 0 where
  pub value : ℕ
  pub function_ids : List ℕ

-- The loop of `findOrAdd`.
unfoldable pub find : String → List String → Option ℕ
unfolding String-discrete
find a [] = none
find a (b ∷ bs) =
    let rest = find a bs in ite (String-discrete a b) (some 0) (do i ← rest; some (suc i))

-- `findOrAdd`
unfoldable pub find_or_add : String → List String → ℕ × List String
unfolding find
find_or_add a b = elim (find a b) [ some i ↦ (i, b) | none ↦ (length b, b ++ a ∷ []) ]

-- The function ids of a sample so far, and `functionNames`.
pub record Naming : Type 0 where
  pub ids : List ℕ
  pub function_names : List String

-- A frame's name is found or added, and its `int32` appended.
unfoldable pub add_frame : String → Naming → Naming
unfolding find_or_add
add_frame frame n =
    let (index, names) = find_or_add frame n.function_names in
    record { ids = n.ids ++ index % 2 ^ 32 ∷ []; function_names = names }

unfoldable pub add_frames : List String → Naming → Naming
unfolding add_frame
add_frames [] n = n
add_frames (f ∷ fs) n = add_frames fs (add_frame f n)

-- The test `!= ""` of the loops.
unfoldable pub keep_named : List String → List String
keep_named [] = []
keep_named ([] ∷ fs) = keep_named fs
keep_named ((c ∷ cs) ∷ fs) = (c ∷ cs) ∷ keep_named fs

-- The addresses up to the first zero.
unfoldable pub until_zero : List ℕ → List ℕ
until_zero [] = []
until_zero (zero ∷ addrs) = []
until_zero (suc a ∷ addrs) = suc a ∷ until_zero addrs

-- "_[k]"
abbrev pub kernel_mark : String
kernel_mark = 95 ∷ 91 ∷ 107 ∷ 93 ∷ []

-- `dump` gives the lines of a kernel back trace, `resolve` the name of an address of a process.
module _ (dump : List ℕ → List String) (resolve : ℕ → ℕ → String) where
  unfoldable pub kernel_frames : EventData → List String
  unfolding keep_named
  kernel_frames e =
      if ltb_s64 0 e.kstack_size
      then map (λ v. v ++ kernel_mark) (keep_named (dump e.kstack))
      else []

  unfoldable pub user_frames : EventData → List String
  unfolding keep_named until_zero
  user_frames e =
      if ltb_s64 0 e.ustack_size
      then keep_named (map (λ addr. resolve addr e.pid) (until_zero e.ustack))
      else []

  -- The body of the loop: the frames of the kernel, those of the process, and its name.
  unfoldable pub add_sample : KeyValue → List String → Sample × List String
  unfolding kernel_frames user_frames add_frames trim_right
  add_sample kv names =
      let kernel =
        add_frames (kernel_frames kv.key) (record { ids = []; function_names = names }) in
      let user = add_frames (user_frames kv.key) kernel in
      let titled = add_frame (trim_right kv.key.name) user in
      (record { value = kv.value; function_ids = titled.ids }, titled.function_names)

  -- The loop: `stacktraces` and `functionNames`.
  unfoldable pub samples : List KeyValue → List String → List Sample × List String
  unfolding add_sample
  samples [] names = ([], names)
  samples (kv ∷ kvs) names =
      let (sample, more) = add_sample kv names in
      let (rest, last) = samples kvs more in (sample ∷ rest, last)
