-- ===== src/Kernel/Table.antt =====
-- A concrete map of the kernel's kind, a list of entries with a bound on their number, which shows
-- that the assumptions of `BpfMap` can be met; examples run on it.
use jidick.Base.{
  ℕ, ◌≡◌, Bool, true, false, ◌&&◌, ◌||◌, not, List, [], ◌∷◌, Option, none, some, arith,
  if◌then◌else◌, ltb, length, is_some,
}
use jidick.Kernel.BpfMap.{Eq, BpfMap, UpdateFlag, bpf_any, bpf_noexist, bpf_exist}

module _ {K V : Type 0} (e : Eq K) (max_entries : ℕ) where
  unfoldable pub find : List (K × V) → K → Option V
  find [] j = none
  find ((k, v) ∷ s) j = if e.same k j then some v else find s j

  unfoldable pub erase : List (K × V) → K → List (K × V)
  erase [] j = []
  erase ((k, v) ∷ s) j = if e.same k j then erase s j else (k, v) ∷ erase s j

  -- A present key can be overwritten; a new one needs room.
  unfoldable pub takes : List (K × V) → K → UpdateFlag → Bool
  unfolding find
  takes s k bpf_any = is_some (find s k) || ltb (length s) max_entries
  takes s k bpf_noexist = not (is_some (find s k)) && ltb (length s) max_entries
  takes s k bpf_exist = is_some (find s k)

  unfoldable pub put : List (K × V) → K → V → UpdateFlag → List (K × V)
  unfolding takes erase
  put s k v f = if takes s k f then (k, v) ∷ erase s k else s

  pub find-erase :
      (s : List (K × V)) (k j : K) → find (erase s k) j ≡ (if e.same k j then none else find s j)
  unfolding find erase
  find-erase [] k j = ground arith
  find-erase ((i, v) ∷ s) k j =
      ground (arith, find-erase s k j, e.same_iff k j, e.same_iff i k, e.same_iff i j)

  pub find-put :
      (s : List (K × V)) (k : K) (v : V) (f : UpdateFlag) (j : K)
      → find (put s k v f) j ≡ (if e.same k j && takes s k f then some v else find s j)
  unfolding put find
  find-put s k v f j = ground (arith, find-erase s k j)

  pub find-store :
      (s : List (K × V)) (k : K) (v w : V) (j : K)
      → find s k ≡ some w
      → find ((k, v) ∷ erase s k) j ≡ (if e.same k j then some v else find s j)
  unfolding find
  find-store s k v w j h = ground (arith, find-erase s k j)

  pub takes-any : (s : List (K × V)) (k : K) (w : V) → find s k ≡ some w → takes s k bpf_any ≡ true
  unfolding takes
  takes-any s k w h = ground arith

  pub takes-exist :
      (s : List (K × V)) (k : K) (w : V) → find s k ≡ some w → takes s k bpf_exist ≡ true
  unfolding takes
  takes-exist s k w h = ground arith

  pub refuses-noexist :
      (s : List (K × V)) (k : K) (w : V) → find s k ≡ some w → takes s k bpf_noexist ≡ false
  unfolding takes
  refuses-noexist s k w h = ground arith

  pub takes-noexist :
      (s : List (K × V)) (k : K) → find s k ≡ none → takes s k bpf_noexist ≡ takes s k bpf_any
  unfolding takes
  takes-noexist s k h = ground arith

-- The list as a `BpfMap`.
abbrev pub table : {K V : Type 0} (e : Eq K) → ℕ → BpfMap (List (K × V)) K V e
table e max_entries = record {
  lookup = find e max_entries;
  update = put e max_entries;
  delete = erase e max_entries;
  store = λ s k v. (k, v) ∷ erase e max_entries s k;
  accepts = takes e max_entries;
  lookup-update = find-put e max_entries;
  lookup-delete = find-erase e max_entries;
  lookup-store = find-store e max_entries;
  accepts-any = takes-any e max_entries;
  accepts-exist = takes-exist e max_entries;
  refuses-noexist = refuses-noexist e max_entries;
  accepts-noexist = takes-noexist e max_entries;
}
