-- ===== src/Wire/RoundTrip.antt =====
-- What user space reads of the structs of bpf/*.c.
use jidick.Base.{
  ℕ, zero, suc, ◌+◌, ◌*◌, ◌/◌, ◌%◌, ◌^◌, ◌<◌, ◌≡◌, refl, ap, arith, some, List, [], ◌∷◌, ◌++◌,
  length, All,
}
use mathlib.Core.List.{append_assoc}
use native.Mathlib.Nat.{pow-suc}
use jidick.Wire.Structs.{Exchange, c_struct, go_struct}
use jidick.Wire.{
  Field, le_bytes, elements, padding, unwritten, c_object, read_number, read_array, go_read, Fits,
  end_of, alignment, sizeof, c_value,
}

read_number-le_bytes :
    (w v : ℕ) (rest : List ℕ) → v < 256 ^ w → read_number w (le_bytes w v ++ rest) ≡ some (v, rest)
unfolding read_number le_bytes
read_number-le_bytes zero v rest h = ap (λ x. some (x, rest)) (omega arith)
read_number-le_bytes (suc w) v rest h =
    rw (read_number-le_bytes w (v / 256) rest (omega (arith, pow-suc 256 w)))
      (ap (λ x. some (x, rest)) (omega arith))

read_array-elements :
    (w n : ℕ) (vs rest : List ℕ)
    → length vs ≡ n
    → All (λ x. x < 256 ^ w) vs
    → read_array w n (elements w vs ++ rest) ≡ some (vs, rest)
unfolding read_array elements
read_array-elements w zero [] rest n h = refl
read_array-elements w zero (v ∷ vs) rest n h = absurd (omega arith)
read_array-elements w (suc n) [] rest e h = absurd (omega arith)
read_array-elements w (suc n) (v ∷ vs) rest e h =
    rw
      (
        append_assoc (le_bytes w v) (elements w vs) rest,
        read_array,
        read_number-le_bytes w v (elements w vs ++ rest) h.0,
        read_array-elements w n vs rest (omega arith) h.1,
      )
      refl

-- Every member lies on its alignment without padding in front of it.
abbrev pub IsPacked : (offset : ℕ) → List Field → Type 0
IsPacked offset [] = Unit
IsPacked offset (f ∷ fs) = (offset % f.width ≡ 0) × IsPacked (offset + f.width * f.count) fs

plus_zero : (n : ℕ) → n + 0 ≡ n
plus_zero n = omega arith

-- Go's reader gives back the values of a packed object, whatever bytes follow them.
go_read-c_object :
    (junk : ℕ → ℕ) (offset : ℕ) (fs : List Field) (vs : List (List ℕ)) (rest : List ℕ)
    → IsPacked offset fs
    → Fits fs vs
    → go_read fs (c_object junk offset fs vs ++ rest) ≡ some vs
unfolding go_read c_object unwritten
go_read-c_object junk offset [] [] rest p h = refl
go_read-c_object junk offset [] (v ∷ vs) rest p h = absurd h
go_read-c_object junk offset (f ∷ fs) [] rest p h = absurd h
go_read-c_object junk offset (f ∷ fs) (v ∷ vs) rest p h =
    let after = c_object junk (offset + 0 + f.width * f.count) fs vs in
    let packed : IsPacked (offset + 0 + f.width * f.count) fs = rw (plus_zero offset) p.1 in
    rw
      (
        p.0,
        append_assoc (elements f.width v) after rest,
        go_read,
        read_array-elements f.width f.count v (after ++ rest) h.0 h.1,
        go_read-c_object junk (offset + 0 + f.width * f.count) fs vs rest packed h.2,
      )
      refl

c_struct-IsPacked : (x : Exchange) → IsPacked 0 (c_struct x)
c_struct-IsPacked x = ground arith

go_struct-eq-c_struct : (x : Exchange) → go_struct x ≡ c_struct x
go_struct-eq-c_struct x = ground arith

length-append : (xs ys : List ℕ) → length (xs ++ ys) ≡ length xs + length ys
length-append [] ys = omega arith
length-append (x ∷ xs) ys = omega (arith, length-append xs ys)

length-unwritten : (junk : ℕ → ℕ) (offset n : ℕ) → length (unwritten junk offset n) ≡ n
unfolding unwritten
length-unwritten junk offset zero = refl
length-unwritten junk offset (suc n) = omega (arith, length-unwritten junk (suc offset) n)

length-le_bytes : (w v : ℕ) → length (le_bytes w v) ≡ w
unfolding le_bytes
length-le_bytes zero v = refl
length-le_bytes (suc w) v = omega (arith, length-le_bytes w (v / 256))

length-elements : (w : ℕ) (vs : List ℕ) → length (elements w vs) ≡ w * length vs
unfolding elements
length-elements w [] = omega arith
length-elements w (v ∷ vs) =
    grind (
      arith,
      length-append (le_bytes w v) (elements w vs),
      length-le_bytes w v,
      length-elements w vs,
    )

length-c_object :
    (junk : ℕ → ℕ) (offset : ℕ) (fs : List Field) (vs : List (List ℕ))
    → Fits fs vs
    → offset + length (c_object junk offset fs vs) ≡ end_of offset fs
unfolding c_object end_of
length-c_object junk offset [] [] h = omega arith
length-c_object junk offset [] (v ∷ vs) h = absurd h
length-c_object junk offset (f ∷ fs) [] h = absurd h
length-c_object junk offset (f ∷ fs) (v ∷ vs) h =
    let p = padding f.width offset in
    let after = c_object junk (offset + p + f.width * f.count) fs vs in
    let rest = length-c_object junk (offset + p + f.width * f.count) fs vs h.2 in
    let gap = unwritten junk offset p in
    let member = elements f.width v in
    let split : length (c_object junk offset (f ∷ fs) (v ∷ vs))
        ≡ length (gap ++ member) + length after =
      length-append (gap ++ member) after in
    omega (
      arith,
      split,
      length-append gap member,
      length-unwritten junk offset p,
      rw h.0 at (length-elements f.width v),
      rest,
    )

-- Whatever values of the members' types a program stores in a struct that it hands to user space,
-- the `sizeof` bytes that it hands over are read back by the Go struct as those values, member by
-- member, whatever was in memory before; and there are exactly `sizeof` of them.
pub go_read-c_struct :
    (x : Exchange) (vs : List (List ℕ)) (junk : ℕ → ℕ)
    → Fits (c_struct x) vs
    → (go_read (go_struct x) (c_value junk (c_struct x) vs) ≡ some vs)
      × (length (c_value junk (c_struct x) vs) ≡ sizeof (c_struct x))
unfolding c_value sizeof
go_read-c_struct x vs junk h =
    let fs = c_struct x in
    let n = end_of 0 fs in
    let p = padding (alignment fs) n in
    let body = length-c_object junk 0 fs vs h in
    (
      rw (go_struct-eq-c_struct x)
          (go_read-c_object junk 0 fs vs (unwritten junk n p) (c_struct-IsPacked x) h),
      rw (length-append (c_object junk 0 fs vs) (unwritten junk n p), length-unwritten junk n p)
          (omega (arith, body)),
    )
