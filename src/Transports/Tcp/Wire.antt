-- ===== src/Transports/Tcp/Wire.antt =====
-- The messages of lc-lib/transports/tcp/tcp.go. The compressor (zlib) is a parameter. Events are
-- shorter than 2^32 bytes where a theorem says so: `uint32` cuts longer lengths off.
pub mod RoundTrip
use log_courier.Common.{
  ℕ, zero, suc, ◌+◌, ◌*◌, ◌-◌, ◌/◌, ◌%◌, ◌^◌, Bool, true, false, List, [], ◌∷◌, ◌++◌, Option, none,
  some, length, take, drop, leb, ◌==◌, if◌then◌else◌,
}
use log_courier.Core.{EventDescriptor}

-- `binary.BigEndian.PutUint32` of a length.
unfoldable pub put_uint32 : ℕ → List ℕ
put_uint32 n = (n / 2 ^ 24 % 256) ∷ (n / 2 ^ 16 % 256) ∷ (n / 2 ^ 8 % 256) ∷ (n % 256) ∷ []

-- `binary.BigEndian.Uint32`; none is the panic on fewer bytes.
unfoldable pub uint32 : List ℕ → Option ℕ
uint32 (a ∷ b ∷ c ∷ d ∷ rest) = some (a * 2 ^ 24 + b * 2 ^ 16 + c * 2 ^ 8 + d)
uint32 _ = none

-- What `Write` gives to the compressor: each event behind its length.
unfoldable pub frame : List EventDescriptor → List ℕ
frame [] = []
frame (e ∷ events) = put_uint32 (length e.payload) ++ (e.payload ++ frame events)

abbrev pub jdat : List ℕ
jdat = b'J' ∷ b'D' ∷ b'A' ∷ b'T' ∷ []

-- `Write`: the message that it sends, `compress` being what the compressor wrote when it closed.
unfoldable pub write :
    (compress : List ℕ → List ℕ) → (nonce : List ℕ) → List EventDescriptor → List ℕ
unfolding frame put_uint32
write compress nonce events =
    let body = nonce ++ compress (frame events) in jdat ++ (put_uint32 (length body) ++ body)

-- `Ping`.
unfoldable pub ping : List ℕ
ping = b'P' ∷ b'I' ∷ b'N' ∷ b'G' ∷ 0 ∷ 0 ∷ 0 ∷ 0 ∷ []
