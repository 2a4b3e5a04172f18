-- ===== src/Autotracing/MemBurst/Window.antt =====
-- The circular buffer of core/autotracing/memburst.go against the list of all samples.
use jidick.Base.{
  ◌∙◌, sym, ℕ, zero, suc, ◌+◌, ◌-◌, ◌%◌, ◌≤◌, ◌<◌, ◌≡◌, ◌≢◌, refl, ap, arith, ◌==◌, leb, ltb, add64,
  true, if◌then◌else◌, none, some, List, [], ◌∷◌, length, Option-cases, Bool-cases, inl, inr,
  get_elem?, Written, set?-Written, length-replicate, get_elem?-none, get_elem?-some,
}
use native.Mathlib.Nat.{mod-eq_of_lt, mod_self}
use jidick.Autotracing.MemBurst.{
  Inputs, Settings, History, new_history, Checked, report_if_burst, check_and_record_memory_usage,
  record_sample, judge,
}

-- What a check returns with the samples before it, the newest first, and no buffer: a sample is
-- compared with the one a window earlier, the window counted with both.
unfoldable pub check_samples : Settings → Inputs → List ℕ → List ℕ × Checked
check_samples cfg i samples = elim i.mem_info [
  | none ↦ (samples, some [])
  | some (active, inactive) ↦
      let now = add64 active inactive in
      (
        now ∷ samples,
        elim (get_elem? (now ∷ samples) (cfg.history_window_length - 1)) [
          | none ↦ some []
          | some oldest ↦ report_if_burst cfg i.processes now oldest
        ],
      )
]

-- Where the sample of `j` checks ago lies when `c` is written next.
abbrev position : ℕ → ℕ → ℕ → ℕ
position c w j = if ltb j c then c - 1 - j else w + c - 1 - j

-- A buffer that holds the newest samples.
pub record Tracks (w : ℕ) (samples : List ℕ) (h : History) : Type 0 where
  pub in_range : h.current_index < w
  pub sized : length h.history ≡ w
  pub full : h.is_history_full ≡ leb w (length samples)
  pub next : length samples < w → h.current_index ≡ length samples
  pub holds :
      (j : ℕ)
      → j < w
      → j < length samples
      → get_elem? h.history (position h.current_index w j) ≡ get_elem? samples j

pub new_history-Tracks : (w : ℕ) → 0 < w → Tracks w [] (new_history w)
unfolding new_history
new_history-Tracks w pos = record {
  in_range = pos;
  sized = length-replicate w 0;
  full = ground arith;
  next = λ h. refl;
  holds = λ j h i. absurd (omega arith);
}

-- The index after the one written, as the code computes it.
next_index : (c w : ℕ) → c < w → (c + 1) % w ≡ (if c + 1 == w then 0 else c + 1)
next_index c w h = elim (Bool-cases (c + 1 == w)) [
  | inl e ↦ let same : c + 1 ≡ w = ground arith in rw (e, same) (mod_self w)
  | inr e ↦ rw e (mod-eq_of_lt (ground arith))
]

-- After a write at `c`, the new sample lies where the newest does, and every other one a check
-- further back.
position-zero : (c w : ℕ) → c < w → position (if c + 1 == w then 0 else c + 1) w 0 ≡ c
position-zero c w h = ground arith

position-suc :
    (c w j : ℕ)
    → c < w
    → suc j < w
    → (position (if c + 1 == w then 0 else c + 1) w (suc j) ≡ position c w j) × (position c w j ≢ c)
position-suc c w j h i = ground arith

record_sample-Tracks :
    (cfg : Settings) (x : ℕ) (samples : List ℕ) (h : History)
    → Tracks cfg.history_window_length samples h
    → (h' : History) × (record_sample cfg x h ≡ some h')
      × Tracks cfg.history_window_length (x ∷ samples) h'
unfolding record_sample get_elem?
record_sample-Tracks cfg x samples h t =
    let (stored, e, written) = set?-Written h.history h.current_index x (rw t.sized t.in_range) in
    (
      record {
        current_index = (h.current_index + 1) % cfg.history_window_length;
        is_history_full =
            if h.current_index + 1 == cfg.history_window_length then true else h.is_history_full;
        history = stored;
      },
      rw e refl,
      record {
        in_range = rw (next_index c w t.in_range) (ground (arith, t.in_range));
        sized = written.same_length ∙ t.sized;
        full = ground (arith, t.full, t.next, t.in_range);
        next = λ g. rw (next_index c w t.in_range) (ground (arith, t.next));
        holds = found stored written;
      },
    )
  where
    c : ℕ
    c = h.current_index

    w : ℕ
    w = cfg.history_window_length

    found :
        (stored : List ℕ)
        → Written h.history c x stored
        → (j : ℕ) → j < w
        → j < length (x ∷ samples)
        → get_elem? stored (position ((c + 1) % w) w j) ≡ get_elem? (x ∷ samples) j
    found stored written zero j_w j_n =
        rw (next_index c w t.in_range, position-zero c w t.in_range) written.at_index
    found stored written (suc j) j_w j_n =
        let (back, apart) = position-suc c w j t.in_range j_w in
        rw (next_index c w t.in_range, back)
          (written.elsewhere _ apart ∙ t.holds j (omega arith) (omega arith))

judge-Tracks :
    (cfg : Settings) (i : Inputs) (x : ℕ) (samples : List ℕ) (h : History)
    → Tracks cfg.history_window_length (x ∷ samples) h
    → judge cfg i.processes x h
      ≡ some (
        h,
        elim (get_elem? (x ∷ samples) (cfg.history_window_length - 1)) [
          | none ↦ some []
          | some oldest ↦ report_if_burst cfg i.processes x oldest
        ],
      )
unfolding judge
judge-Tracks cfg i x samples h t = elim (Bool-cases h.is_history_full) [
  | inl e ↦
      let at_oldest : position h.current_index w (w - 1) ≡ h.current_index =
        ground (arith, t.in_range) in
      let long : w - 1 < length (x ∷ samples) = ground (arith, t.full, t.in_range) in
      let (oldest, is) = get_elem?-some (x ∷ samples) (w - 1) long in
      let read : get_elem? h.history h.current_index ≡ some oldest =
        ap (get_elem? h.history) (sym at_oldest)
        ∙ t.holds (w - 1) (ground (arith, t.in_range)) long
        ∙ is in
      rw (e, read, is) refl
  | inr e ↦
      let short : length (x ∷ samples) ≤ w - 1 = ground (arith, t.full) in
      rw (e, get_elem?-none (x ∷ samples) (w - 1) short) refl
]
  where
    w : ℕ
    w = cfg.history_window_length

pub check-Tracks :
    (cfg : Settings) (i : Inputs) (samples : List ℕ) (h : History)
    → Tracks cfg.history_window_length samples h
    → (h' : History) × (check_and_record_memory_usage cfg i h
        ≡ some (h', (check_samples cfg i samples).1))
      × Tracks cfg.history_window_length (check_samples cfg i samples).0 h'
unfolding check_and_record_memory_usage check_samples
check-Tracks cfg i samples h t = elim (Option-cases i.mem_info) [
  | inl e ↦ rw e (h, refl, t)
  | inr ((active, inactive), e) ↦
      let (h', stored, t') = record_sample-Tracks cfg (add64 active inactive) samples h t in
      rw (e, stored) (h', judge-Tracks cfg i (add64 active inactive) samples h' t', t')
]
