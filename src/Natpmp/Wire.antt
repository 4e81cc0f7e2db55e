-- ===== src/Natpmp/Wire.antt =====
-- The bytes of src/natpmp.rs: what a request holds, and what a response is read as.
use egressy.Base.{ℕ, ◌/◌, ◌%◌, ◌^◌, ◌<◌, ◌≡◌, List, ◌∷◌, ◌++◌, length, arith, All}
use egressy.Natpmp.{
  Protocol, udp, tcp, opcode, Mapping, ok, be16, be32, of_be16, of_be32, at, encode_mapping_request,
  decode_mapping_response,
}

abbrev pub IsByte : ℕ → Type 0
IsByte b = b < 256

-- A request has 12 bytes, and its ports and its lifetime are read back from where RFC 6886 puts
-- them, for every port of 16 bits and lifetime of 32.
pub encode_mapping_request_lem :
    (p : Protocol) (i e l : ℕ)
    → i < 2 ^ 16
    → e < 2 ^ 16
    → l < 2 ^ 32
    → let r = encode_mapping_request p i e l in
      (length r ≡ 12)
      × All IsByte r
      × (at r 0 ≡ 0)
      × (at r 1 ≡ opcode p)
      × (of_be16 (at r 4) (at r 5) ≡ i)
      × (of_be16 (at r 6) (at r 7) ≡ e)
      × (of_be32 (at r 8) (at r 9) (at r 10) (at r 11) ≡ l)
unfolding encode_mapping_request
encode_mapping_request_lem udp i e l hi he hl = omega arith
encode_mapping_request_lem tcp i e l hi he hl = omega arith

-- The bytes of a response to a mapping request, after its first 8.
abbrev pub mapping_bytes : Mapping → List ℕ
mapping_bytes m = be16 m.internal_port ++ be16 m.external_port ++ be32 m.lifetime_seconds

of_be32-be32 :
    (n : ℕ) → n < 2 ^ 32 → of_be32 (n / 16777216) (n / 65536 % 256) (n / 256 % 256) (n % 256) ≡ n
of_be32-be32 n h = omega arith

-- A response of 8 bytes of header and a mapping's bytes is read as that mapping.
pub decode_mapping_bytes :
    (a b c d e f g h : ℕ) (m : Mapping)
    → m.internal_port < 2 ^ 16
    → m.external_port < 2 ^ 16
    → m.lifetime_seconds < 2 ^ 32
    → decode_mapping_response (a ∷ b ∷ c ∷ d ∷ e ∷ f ∷ g ∷ h ∷ mapping_bytes m) ≡ ok m
unfolding decode_mapping_response
decode_mapping_bytes a b c d e f g h m hi he hl =
    let i : of_be16 (m.internal_port / 256) (m.internal_port % 256) ≡ m.internal_port =
      omega arith in
    let e : of_be16 (m.external_port / 256) (m.external_port % 256) ≡ m.external_port =
      omega arith in
    ground (arith, i, e, of_be32-be32 m.lifetime_seconds hl)
