-- ===== src/Flamegraph/Samples/Names.antt =====
-- What the numbers in the samples of cmd/perf/parsedata.go stand for.
use mathlib.Core.Logic.{if_pos, if_neg}
use mathlib.Core.List.{append-nil, append_assoc}
use native.Mathlib.Nat.{mod-eq_of_lt}
use mathlib.Core.Option.{none-ne-some, some-injective}
use jidick.Base.{
  ℕ, suc, ◌+◌, ◌%◌, ◌^◌, ◌≤◌, ◌≡◌, inl, inr, refl, sym, ap, ◌∙◌, arith, ◌>>=◌, Option, Option-cases,
  none, some, List, [], ◌∷◌, ◌++◌, length, length-append, get_elem?, get_elem?-length, get_elem?-lt,
}
use jidick.Cgroup.CssData.{trim_right}
use jidick.Flamegraph.{String, String-discrete, labels_of}
use jidick.Flamegraph.Labels.{Decodes, Decodes-grow, Decodes-append, labels_of-Decodes}
use jidick.Flamegraph.Samples.{
  EventData, KeyValue, Sample, Naming, find, find_or_add, add_frame, add_frames, kernel_frames,
  user_frames, add_sample, samples,
}

bind-suc :
    (o : Option ℕ) (i : ℕ)
    → (do j ← o; some (suc j)) ≡ some i
    → (j : ℕ) × (o ≡ some j) × (suc j ≡ i)
bind-suc none i h = absurd (none-ne-some i h)
bind-suc (some j) i h = (j, refl, some-injective (suc j) i h)

find-at : (a : String) (bs : List String) (i : ℕ) → find a bs ≡ some i → get_elem? bs i ≡ some a
unfolding find get_elem?
find-at a [] i h = absurd (none-ne-some i h)
find-at a (b ∷ bs) i h = elim (String-discrete a b) [
  | yes same ↦
      let at = some-injective 0 i (sym (if_pos (String-discrete a b) same _ _) ∙ h) in
      rw (sym at, same) refl
  | no other ↦
      let later = sym (if_neg (String-discrete a b) other _ _) ∙ h in
      let (j, found, next) = bind-suc (find a bs) i later in rw (sym next) (find-at a bs j found)
]

-- The list of names behind some frames, which has grown by at most their number.
record Names (names : List String) (fs : List String) (n : Naming) (ls : List String) : Type 0 where
  more : List String
  grown : n.function_names ≡ names ++ more
  few : length more ≤ length fs
  decoded : Decodes n.function_names n.ids (ls ++ fs)

add_frame-Names :
    (f : String) (ls : List String) (n : Naming)
    → Decodes n.function_names n.ids ls
    → length n.function_names + 1 ≤ 2 ^ 31
    → Names n.function_names (f ∷ []) (add_frame f n) ls
unfolding add_frame find_or_add
add_frame-Names f ls n h fits = elim (Option-cases (find f n.function_names)) [
  | inl missed ↦
      let names = n.function_names in
      let small : length names % 2 ^ 32 ≡ length names = mod-eq_of_lt (omega arith) in
      rw (add_frame, find_or_add, missed, small)
        (record {
          more = f ∷ [];
          grown = refl;
          few = omega arith;
          decoded =
              Decodes-append (names ++ f ∷ []) n.ids ls (length names) f
                (Decodes-grow names (f ∷ []) n.ids ls h) (get_elem?-length names [] f);
        })
  | inr (i, found) ↦
      let names = n.function_names in
      let at = find-at f names i found in
      let below = get_elem?-lt names i f at in
      let small : i % 2 ^ 32 ≡ i = mod-eq_of_lt (omega arith) in
      rw (add_frame, find_or_add, found, small)
        (record {
          more = [];
          grown = sym (append-nil names);
          few = omega arith;
          decoded = Decodes-append names n.ids ls i f h at;
        })
]

-- More frames behind those before.
Names-append :
    (names fs gs : List String) (n m : Naming) (ls : List String)
    → Names names fs n ls
    → Names n.function_names gs m (ls ++ fs)
    → Names names (fs ++ gs) m ls
Names-append names fs gs n m ls h k =
    let both = length-append h.more k.more in
    let frames = length-append fs gs in
    let few = h.few in
    let fewer = k.few in
    record {
      more = h.more ++ k.more;
      grown = k.grown ∙ ap (λ ns. ns ++ k.more) h.grown ∙ append_assoc names h.more k.more;
      few = omega arith;
      decoded = rw (sym (append_assoc ls fs gs)) k.decoded;
    }

-- How many names there are afterwards.
Names-le :
    (names fs ls : List String) (n : Naming)
    → Names names fs n ls
    → length n.function_names ≤ length names + length fs
Names-le names fs ls n h =
    let both = length-append names h.more in let few = h.few in rw h.grown (omega arith)

add_frames-Names :
    (fs ls : List String) (n : Naming)
    → Decodes n.function_names n.ids ls
    → length n.function_names + length fs ≤ 2 ^ 31
    → Names n.function_names fs (add_frames fs n) ls
unfolding add_frames
add_frames-Names [] ls n h fits = record {
  more = [];
  grown = sym (append-nil n.function_names);
  few = omega arith;
  decoded = rw (append-nil ls) h;
}
add_frames-Names (f ∷ fs) ls n h fits =
    let one = add_frame-Names f ls n h (omega arith) in
    let le = Names-le n.function_names (f ∷ []) ls (add_frame f n) one in
    let rest = add_frames-Names fs (ls ++ f ∷ []) (add_frame f n) one.decoded (omega arith) in
    Names-append n.function_names (f ∷ []) fs (add_frame f n) (add_frames fs (add_frame f n)) ls one
      rest

module _ (dump : List ℕ → List String) (resolve : ℕ → ℕ → String) where
  -- The frames of a stack: those of the kernel, those of the process, and its name.
  abbrev pub frames : EventData → List String
  frames e = kernel_frames dump resolve e ++ (user_frames dump resolve e ++ trim_right e.name ∷ [])

  abbrev pub total : List KeyValue → ℕ
  total [] = 0
  total (kv ∷ kvs) = length (frames kv.key) + total kvs

  record IsNamed (kv : KeyValue) (names : List String) (r : Sample × List String) : Type 0 where
    value : r.0.value ≡ kv.value
    named : Names names (frames kv.key) (record { ids = r.0.function_ids; function_names = r.1 }) []

  add_sample-IsNamed :
      (kv : KeyValue) (names : List String)
      → length names + length (frames kv.key) ≤ 2 ^ 31
      → IsNamed kv names (add_sample dump resolve kv names)
  unfolding add_sample
  add_sample-IsNamed kv names fits =
      let kernel = kernel_frames dump resolve kv.key in
      let user = user_frames dump resolve kv.key in
      let title = trim_right kv.key.name in
      let n₀ : Naming = record { ids = []; function_names = names } in
      let n₁ = add_frames kernel n₀ in
      let n₂ = add_frames user n₁ in
      let all = length-append kernel (user ++ title ∷ []) in
      let last = length-append user (title ∷ []) in
      let first = add_frames-Names kernel [] n₀ tt (omega arith) in
      let le₁ = Names-le names kernel [] n₁ first in
      let second = add_frames-Names user kernel n₁ first.decoded (omega arith) in
      let le₂ = Names-le n₁.function_names user kernel n₂ second in
      let third = add_frame-Names title (kernel ++ user) n₂ second.decoded (omega arith) in
      let n₃ = add_frame title n₂ in
      record {
        value = refl;
        named =
            Names-append names kernel (user ++ title ∷ []) n₁ n₃ [] first
              (Names-append n₁.function_names user (title ∷ []) n₂ n₃ kernel second third);
      }

  -- A sample with its numbers read as the names that they stand for.
  abbrev pub read_samples : List String → List Sample → List (ℕ × Option (List String))
  read_samples names [] = []
  read_samples names (s ∷ ss) = (s.value, labels_of names s.function_ids) ∷ read_samples names ss

  -- What was counted: the stack and how often it was met.
  abbrev pub stacks : List KeyValue → List (ℕ × Option (List String))
  stacks [] = []
  stacks (kv ∷ kvs) = (kv.value, some (frames kv.key)) ∷ stacks kvs

  -- The names that were there stay, in front of those that are added.
  samples-grow :
      (kvs : List KeyValue) (names : List String)
      → length names + total kvs ≤ 2 ^ 31
      → (more : List String) × ((samples dump resolve kvs names).1 ≡ names ++ more)
        × (read_samples (samples dump resolve kvs names).1 (samples dump resolve kvs names).0
            ≡ stacks kvs)
  unfolding samples
  samples-grow [] names fits = ([], sym (append-nil names), refl)
  samples-grow (kv ∷ kvs) names fits =
      let first = add_sample dump resolve kv names in
      let h = add_sample-IsNamed kv names (omega arith) in
      let le = Names-le names (frames kv.key) [] _ h.named in
      let (more, grown, rest) = samples-grow kvs first.1 (omega arith) in
      let last = (samples dump resolve kvs first.1).1 in
      let kept : Decodes last first.0.function_ids (frames kv.key) =
        rw grown (Decodes-grow first.1 more first.0.function_ids (frames kv.key) h.named.decoded) in
      let read = labels_of-Decodes last first.0.function_ids (frames kv.key) kept in
      (
        h.named.more ++ more,
        grown ∙ ap (λ ns. ns ++ more) h.named.grown ∙ append_assoc names h.named.more more,
        rw (h.value, read, rest) refl,
      )

  -- Read with the names that there are in the end, the samples are the stacks that were counted,
  -- frame by frame, each with its count and all in their order, if there are at most 2 ^ 31 frames,
  -- so that the `int32` numbers do not wrap around.
  pub read_samples-samples :
      (kvs : List KeyValue)
      → total kvs ≤ 2 ^ 31
      → read_samples (samples dump resolve kvs []).1 (samples dump resolve kvs []).0 ≡ stacks kvs
  read_samples-samples kvs fits = let (_, _, read) = samples-grow kvs [] (omega arith) in read
