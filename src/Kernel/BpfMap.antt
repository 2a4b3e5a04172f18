-- ===== src/Kernel/BpfMap.antt =====
-- The kernel's hash and array maps, which are not code of this repository: the helpers
-- `bpf_map_lookup_elem`, `bpf_map_update_elem` and `bpf_map_delete_elem`, and a write through the
-- pointer that a lookup returned, as operations on a store `S`, with the documented behaviour that
-- the programs rely on.
use jidick.Base.{
  ℕ, Bool, true, false, ◌&&◌, Option, none, some, ◌≡◌, ◌↔◌, ◌==◌, ==_iff, if◌then◌else◌, is_some,
}

-- Equality of keys: the kernel compares their bytes.
pub record Eq (K : Type 0) : Type 0 where
  pub same : K → K → Bool
  pub same_iff : (a b : K) → (same a b ≡ true) ↔ (a ≡ b)

instance abbrev pub nat_eq : Eq ℕ
nat_eq = record { same = ◌==◌; same_iff = ==_iff }

-- COMPAT_BPF_ANY, COMPAT_BPF_NOEXIST and COMPAT_BPF_EXIST of bpf/include/bpf_common.h.
pub data UpdateFlag : Type 0 where
  bpf_any : UpdateFlag
  bpf_noexist : UpdateFlag
  bpf_exist : UpdateFlag

pub record BpfMap (S K V : Type 0) (e : Eq K) : Type 0 where
  pub lookup : S → K → Option V
  pub update : S → K → V → UpdateFlag → S
  pub delete : S → K → S
  -- `*ptr = v`, for the `ptr` that a lookup of the key returned
  pub store : S → K → V → S
  -- whether `bpf_map_update_elem` returns 0: a full map refuses a new key
  pub accepts : S → K → UpdateFlag → Bool
  pub lookup-update :
      (s : S) (k : K) (v : V) (f : UpdateFlag) (j : K)
      → lookup (update s k v f) j ≡ (if e.same k j && accepts s k f then some v else lookup s j)
  pub lookup-delete :
      (s : S) (k j : K) → lookup (delete s k) j ≡ (if e.same k j then none else lookup s j)
  pub lookup-store :
      (s : S) (k : K) (v w : V) (j : K)
      → lookup s k ≡ some w
      → lookup (store s k v) j ≡ (if e.same k j then some v else lookup s j)
  pub accepts-any : (s : S) (k : K) (w : V) → lookup s k ≡ some w → accepts s k bpf_any ≡ true
  pub accepts-exist : (s : S) (k : K) (w : V) → lookup s k ≡ some w → accepts s k bpf_exist ≡ true
  pub refuses-noexist :
      (s : S) (k : K) (w : V) → lookup s k ≡ some w → accepts s k bpf_noexist ≡ false
  pub accepts-noexist :
      (s : S) (k : K) → lookup s k ≡ none → accepts s k bpf_noexist ≡ accepts s k bpf_any

module _ {S K V : Type 0} {e : Eq K} (map : BpfMap S K V e) where
  -- A change through the pointer that a lookup of the key returned, such as
  -- `__sync_fetch_and_add(&entry->counter, 1)`: it reads the value that is there now.
  unfoldable pub modify : S → K → (V → V) → S
  modify s k f = elim (map.lookup s k) [ none ↦ s | some v ↦ map.store s k (f v) ]

  -- The programs' way to an entry: look it up, or insert `fresh` under COMPAT_BPF_NOEXIST and look
  -- it up again; whether the second pointer, or the first, is not NULL.
  unfoldable pub lookup_or_init : S → K → V → S × Bool
  lookup_or_init s k fresh = elim (map.lookup s k) [
    | some v ↦ (s, true)
    | none ↦ let s' = map.update s k fresh bpf_noexist in (s', is_some (map.lookup s' k))
  ]
