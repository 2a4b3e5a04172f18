-- ===== src/Base/Arrays.antt =====
-- Arrays as lists: the checked read and write of an index, and what a write leaves.
use Prim.Native.Nat.{ℕ, zero, suc, ◌+◌, ◌≤◌, ◌<◌}
use mathlib.Core.Path.{◌≡◌, refl, sym, ap}
use mathlib.Core.Logic.{◌≢◌, ◌⊎◌, inl, inr}
use mathlib.Core.Option.{Option, none, some, none-ne-some, some-injective}
use mathlib.Core.List.{List, [], ◌∷◌, ◌++◌}
use native.Mathlib.Omega.{arith}
use jidick.Base.Tests.{◌>>=◌}
use jidick.Base.Lists.{length, replicate}

-- An array read or written at an index; `none` is the panic of an index out of range.
unfoldable pub get_elem? {ℓ} : {A : Type ℓ} → List A → ℕ → Option A
get_elem? [] i = none
get_elem? (x ∷ xs) zero = some x
get_elem? (x ∷ xs) (suc i) = get_elem? xs i

unfoldable pub set? {ℓ} : {A : Type ℓ} → List A → ℕ → A → Option (List A)
set? [] i v = none
set? (x ∷ xs) zero v = some (v ∷ xs)
set? (x ∷ xs) (suc i) v = do rest ← set? xs i v; some (x ∷ rest)

unfoldable pub take {ℓ} : {A : Type ℓ} → ℕ → List A → List A
take zero xs = []
take (suc n) [] = []
take (suc n) (x ∷ xs) = x ∷ take n xs

pub length-replicate {ℓ} : {A : Type ℓ} (w : ℕ) (x : A) → length (replicate w x) ≡ w
unfolding replicate
length-replicate zero x = refl
length-replicate (suc w) x = ap suc (length-replicate w x)

pub get_elem?-none {ℓ} : {A : Type ℓ} (xs : List A) (i : ℕ) → length xs ≤ i → get_elem? xs i ≡ none
unfolding get_elem?
get_elem?-none [] i h = refl
get_elem?-none (x ∷ xs) zero h = absurd (omega arith)
get_elem?-none (x ∷ xs) (suc i) h = get_elem?-none xs i (omega arith)

pub get_elem?-some {ℓ} :
    {A : Type ℓ} (xs : List A) (i : ℕ) → i < length xs → (x : A) × (get_elem? xs i ≡ some x)
unfolding get_elem?
get_elem?-some [] i h = absurd (omega arith)
get_elem?-some (x ∷ xs) zero h = (x, refl)
get_elem?-some (x ∷ xs) (suc i) h = get_elem?-some xs i (omega arith)

-- A write in range, and what it leaves at its index and at the others.
pub record Written {ℓ} {A : Type ℓ} (xs : List A) (i : ℕ) (v : A) (ys : List A) : Type ℓ where
  pub same_length : length ys ≡ length xs
  pub at_index : get_elem? ys i ≡ some v
  pub elsewhere : (j : ℕ) → j ≢ i → get_elem? ys j ≡ get_elem? xs j

pub set?-Written {ℓ} :
    {A : Type ℓ} (xs : List A) (i : ℕ) (v : A)
    → i < length xs
    → (ys : List A) × (set? xs i v ≡ some ys) × Written xs i v ys
unfolding get_elem? set?
set?-Written [] i v h = absurd (omega arith)
set?-Written {A = A} (x ∷ xs) zero v h =
    (v ∷ xs, refl, record { same_length = refl; at_index = refl; elsewhere = elsewhere_head })
  where
    elsewhere_head : (j : ℕ) → j ≢ 0 → get_elem? (v ∷ xs) j ≡ get_elem? (x ∷ xs) j
    elsewhere_head zero d = absurd (d refl)
    elsewhere_head (suc j) d = refl
set?-Written {A = A} (x ∷ xs) (suc i) v h =
    let (ys, e, w) = set?-Written xs i v (omega arith) in
    (
      x ∷ ys,
      rw e refl,
      record {
        same_length = ap suc w.same_length;
        at_index = w.at_index;
        elsewhere = elsewhere_tail ys w.elsewhere;
      },
    )
  where
    elsewhere_tail :
        (ys : List A)
        → ((j : ℕ) → j ≢ i → get_elem? ys j ≡ get_elem? xs j)
        → (j : ℕ) → j ≢ suc i
        → get_elem? (x ∷ ys) j ≡ get_elem? (x ∷ xs) j
    elsewhere_tail ys same zero d = refl
    elsewhere_tail ys same (suc j) d = same j (λ e. d (ap suc e))

module _ {ℓ} {A : Type ℓ} where
  pub get_elem?-append :
      (xs ys : List A) (k : ℕ) → k < length xs → get_elem? (xs ++ ys) k ≡ get_elem? xs k
  unfolding get_elem?
  get_elem?-append [] ys k h = absurd (omega arith)
  get_elem?-append (x ∷ xs) ys zero h = refl
  get_elem?-append (x ∷ xs) ys (suc k) h = get_elem?-append xs ys k (omega arith)

  -- The first element behind a list.
  pub get_elem?-length : (xs ys : List A) (y : A) → get_elem? (xs ++ y ∷ ys) (length xs) ≡ some y
  unfolding get_elem?
  get_elem?-length [] ys y = refl
  get_elem?-length (x ∷ xs) ys y = get_elem?-length xs ys y

  pub length-append : (xs ys : List A) → length (xs ++ ys) ≡ length xs + length ys
  length-append [] ys = omega arith
  length-append (x ∷ xs) ys = let rest = length-append xs ys in omega arith

  -- Lists that hold the same at every index, or nothing there, are equal.
  pub get_elem?-ext : (xs ys : List A) → ((i : ℕ) → get_elem? xs i ≡ get_elem? ys i) → xs ≡ ys
  unfolding get_elem?
  get_elem?-ext [] [] h = refl
  get_elem?-ext [] (y ∷ ys) h = absurd (none-ne-some y (h 0))
  get_elem?-ext (x ∷ xs) [] h = absurd (none-ne-some x (sym (h 0)))
  get_elem?-ext (x ∷ xs) (y ∷ ys) h =
      let head : x ≡ y = some-injective x y (h 0) in
      let tail = get_elem?-ext xs ys (λ i. h (suc i)) in rw (head, tail) refl

  pub get_elem?-grow :
      (xs ys : List A) (i : ℕ) (a : A) → get_elem? xs i ≡ some a → get_elem? (xs ++ ys) i ≡ some a
  unfolding get_elem?
  get_elem?-grow [] ys i a h = absurd (none-ne-some a h)
  get_elem?-grow (x ∷ xs) ys zero a h = h
  get_elem?-grow (x ∷ xs) ys (suc i) a h = get_elem?-grow xs ys i a h

  pub get_elem?-lt : (xs : List A) (i : ℕ) (a : A) → get_elem? xs i ≡ some a → i < length xs
  unfolding get_elem?
  get_elem?-lt [] i a h = absurd (none-ne-some a h)
  get_elem?-lt (x ∷ xs) zero a h = omega arith
  get_elem?-lt (x ∷ xs) (suc i) a h = let below = get_elem?-lt xs i a h in omega arith

  pub length-le : (xs : List A) (i : ℕ) → get_elem? xs i ≡ none → length xs ≤ i
  unfolding get_elem?
  length-le [] i h = omega arith
  length-le (x ∷ xs) zero h = absurd (none-ne-some x (sym h))
  length-le (x ∷ xs) (suc i) h = let below = length-le xs i h in omega arith

  -- What a list with one more element holds.
  pub get_elem?-snoc :
      (xs : List A) (v : A) (i : ℕ) (a : A)
      → get_elem? (xs ++ v ∷ []) i ≡ some a
      → (get_elem? xs i ≡ some a) ⊎ ((a ≡ v) × (i ≡ length xs))
  unfolding get_elem?
  get_elem?-snoc [] v zero a h = inr (sym (some-injective v a h), refl)
  get_elem?-snoc [] v (suc i) a h = absurd (none-ne-some a h)
  get_elem?-snoc (x ∷ xs) v zero a h = inl h
  get_elem?-snoc (x ∷ xs) v (suc i) a h = elim (get_elem?-snoc xs v i a h) [
    | inl old ↦ inl old
    | inr (same, at) ↦ inr (same, omega arith)
  ]
