-- ===== src/Net/Headers/Netutil.antt =====
-- internal/utils/netutil/netutil.go, where user space puts addresses, ports and sequence numbers of
-- an event into the host's order, on a little-endian machine; and what comes out of it for members
-- of a packet's headers.
use jidick.Base.{ℕ, ◌+◌, ◌*◌, ◌/◌, ◌%◌, ◌^◌, ◌<◌, ◌≡◌, arith, List, [], ◌∷◌}
use jidick.Net.Headers.{Memory, u16_at, u32_at}

-- `InetNtop`: the four bytes that `NativeEndian.PutUint32` stores.
unfoldable pub inet_ntop : ℕ → List ℕ
inet_ntop ip = ip % 2 ^ 8 ∷ ip / 2 ^ 8 % 2 ^ 8 ∷ ip / 2 ^ 16 % 2 ^ 8 ∷ ip / 2 ^ 24 % 2 ^ 8 ∷ []

-- `InetNtohs` and `InetNtohl`: stored with the high byte first, read with the low byte first.
unfoldable pub inet_ntohs : ℕ → ℕ
inet_ntohs val = val / 2 ^ 8 % 2 ^ 8 + 2 ^ 8 * (val % 2 ^ 8)

unfoldable pub inet_ntohl : ℕ → ℕ
inet_ntohl val =
    val / 2 ^ 24 % 2 ^ 8
    + 2 ^ 8 * (val / 2 ^ 16 % 2 ^ 8)
    + 2 ^ 16 * (val / 2 ^ 8 % 2 ^ 8)
    + 2 ^ 24 * (val % 2 ^ 8)

-- The bytes of memory are bytes.
abbrev pub IsBytes : Memory → Type 0
IsBytes m = (a : ℕ) → m.byte_at a < 2 ^ 8

-- Numbers of the network, the high byte first.
abbrev pub net16 : Memory → ℕ → ℕ
net16 m a = 2 ^ 8 * m.byte_at a + m.byte_at (a + 1)

abbrev pub net32 : Memory → ℕ → ℕ
net32 m a =
    2 ^ 24 * m.byte_at a
    + 2 ^ 16 * m.byte_at (a + 1)
    + 2 ^ 8 * m.byte_at (a + 2)
    + m.byte_at (a + 3)

module _ (m : Memory) (bytes : IsBytes m) (a : ℕ) where
  pub inet_ntohs-u16_at : inet_ntohs (u16_at m a) ≡ net16 m a
  unfolding inet_ntohs
  inet_ntohs-u16_at = omega (arith, bytes a, bytes (a + 1))

  pub inet_ntohl-u32_at : inet_ntohl (u32_at m a) ≡ net32 m a
  unfolding inet_ntohl
  inet_ntohl-u32_at = omega (arith, bytes a, bytes (a + 1), bytes (a + 2), bytes (a + 3))

  pub inet_ntop-u32_at :
      inet_ntop (u32_at m a)
      ≡ (m.byte_at a ∷ m.byte_at (a + 1) ∷ m.byte_at (a + 2) ∷ m.byte_at (a + 3) ∷ [])
  unfolding inet_ntop
  inet_ntop-u32_at = ground (arith, bytes a, bytes (a + 1), bytes (a + 2), bytes (a + 3))
