-- ===== src/Wire.antt =====
-- How the structs of bpf/*.c reach user space: the bytes of a C object, and Go's reader of them
-- (`binary.Read` in internal/bpf/perf_event_reader_default.go and core/metrics/*.go), on a
-- little-endian 64-bit machine.
pub mod Structs
pub mod RoundTrip
pub mod Maps
pub mod Tracepoints
use jidick.Base.{
  ℕ, zero, suc, ◌+◌, ◌-◌, ◌*◌, ◌/◌, ◌%◌, ◌^◌, ◌<◌, ◌≡◌, ◌==◌, if◌then◌else◌, Option, none, some,
  List, [], ◌∷◌, ◌++◌, length, All, max,
}

-- A member: the size of an element, which is its alignment too, and how many there are.
pub record Field : Type 0 where
  pub width : ℕ
  pub count : ℕ

abbrev pub array : ℕ → ℕ → Field
array width count = record { width = width; count = count }

abbrev pub scalar : ℕ → Field
scalar width = array width 1

-- An unsigned number of so many bytes, the lowest byte first.
unfoldable pub le_bytes : ℕ → ℕ → List ℕ
le_bytes zero v = []
le_bytes (suc w) v = v % 256 ∷ le_bytes w (v / 256)

unfoldable pub elements : ℕ → List ℕ → List ℕ
elements width [] = []
elements width (v ∷ vs) = le_bytes width v ++ elements width vs

-- What the compiler leaves out before a member that starts at or after an offset.
unfoldable pub padding : (width offset : ℕ) → ℕ
padding width offset = if offset % width == 0 then 0 else width - offset % width

-- Bytes that nobody has written.
unfoldable pub unwritten : (ℕ → ℕ) → (offset size : ℕ) → List ℕ
unwritten junk offset zero = []
unwritten junk offset (suc n) = junk offset ∷ unwritten junk (suc offset) n

-- The members of a C object, each on its alignment, from an offset on.
unfoldable pub c_object : (ℕ → ℕ) → (offset : ℕ) → List Field → List (List ℕ) → List ℕ
unfolding padding
c_object junk offset [] vs = []
c_object junk offset (f ∷ fs) [] = []
c_object junk offset (f ∷ fs) (v ∷ vs) =
    let p = padding f.width offset in
    unwritten junk offset p
    ++ elements f.width v
    ++ c_object junk (offset + p + f.width * f.count) fs vs

-- Where the members of an object end, and its `sizeof`: up to the next multiple of the widest
-- member's alignment.
unfoldable pub end_of : (offset : ℕ) → List Field → ℕ
unfolding padding
end_of offset [] = offset
end_of offset (f ∷ fs) = end_of (offset + padding f.width offset + f.width * f.count) fs

unfoldable pub alignment : List Field → ℕ
alignment [] = 1
alignment (f ∷ fs) = max f.width (alignment fs)

unfoldable pub sizeof : List Field → ℕ
unfolding end_of alignment padding
sizeof fs = let n = end_of 0 fs in n + padding (alignment fs) n

-- The `sizeof` bytes of an object.
unfoldable pub c_value : (ℕ → ℕ) → List Field → List (List ℕ) → List ℕ
unfolding end_of alignment padding
c_value junk fs vs =
    let n = end_of 0 fs in c_object junk 0 fs vs ++ unwritten junk n (padding (alignment fs) n)

-- `binary.Read`: no padding, and an error where the bytes end too early.
unfoldable pub read_number : (width : ℕ) → List ℕ → Option (ℕ × List ℕ)
read_number zero bs = some (0, bs)
read_number (suc w) [] = none
read_number (suc w) (b ∷ bs) = elim (read_number w bs) [
  | none ↦ none
  | some (v, rest) ↦ some (b + 256 * v, rest)
]

unfoldable pub read_array : (width count : ℕ) → List ℕ → Option (List ℕ × List ℕ)
read_array width zero bs = some ([], bs)
read_array width (suc n) bs = elim (read_number width bs) [
  | none ↦ none
  | some (v, bs') ↦ elim (read_array width n bs') [
    | none ↦ none
    | some (vs, rest) ↦ some (v ∷ vs, rest)
  ]
]

unfoldable pub go_read : List Field → List ℕ → Option (List (List ℕ))
go_read [] bs = some []
go_read (f ∷ fs) bs = elim (read_array f.width f.count bs) [
  | none ↦ none
  | some (v, bs') ↦ elim (go_read fs bs') [ none ↦ none | some vs ↦ some (v ∷ vs) ]
]

-- The values are those of an object: as many as there are elements, and each in the range of its
-- type.
abbrev pub Fits : List Field → List (List ℕ) → Type 0
Fits [] [] = Unit
Fits [] (v ∷ vs) = ⊥
Fits (f ∷ fs) [] = ⊥
Fits (f ∷ fs) (v ∷ vs) = (length v ≡ f.count) × All (λ x. x < 256 ^ f.width) v × Fits fs vs
