-- ===== src/Natpmp.antt =====
-- src/natpmp.rs: the NAT-PMP client. The network is an argument: what became of each request that
-- was sent. A byte is a number below 256.
pub mod Wire
pub mod Exchange
use Prim.Native.Nat.{bit_or}
use egressy.Base.{
  ℕ, zero, suc, ◌+◌, ◌*◌, ◌/◌, ◌%◌, ◌^◌, min, Bool, true, false, not, ◌&&◌, ◌||◌, Option, none,
  some, List, [], ◌∷◌, ◌++◌, ltb, ◌==◌, if◌then◌else◌, length, take,
}

-- Why a response is `Error::Invalid`: the text is not modelled.
pub data Invalid : Type 0 where
  size : ℕ → ℕ → Invalid
  version_or_opcode : Invalid
  mapping_length : ℕ → Invalid
  mappings_differ : Invalid

pub data Error : Type 0 where
  timeout io : Error
  invalid : Invalid → Error
  gateway : ℕ → Error

pub data Result {ℓ} (A : Type ℓ) : Type ℓ where
  ok : A → Result A
  err : Error → Result A

infixl 5 ◌>>=◌
abbrev pub ◌>>=◌ {ℓ κ} : {A : Type ℓ} {B : Type κ} → Result A → (A → Result B) → Result B
ok a >>= f = f a
err e >>= f = err e

pub data Protocol : Type 0 where
  udp tcp : Protocol

unfoldable pub opcode : Protocol → ℕ
opcode udp = 1
opcode tcp = 2

pub record Mapping : Type 0 where
  pub internal_port : ℕ
  pub external_port : ℕ
  pub lifetime_seconds : ℕ

-- `to_be_bytes` and `from_be_bytes` of a `u16` and a `u32`.
abbrev pub be16 : ℕ → List ℕ
be16 n = (n / 256) ∷ (n % 256) ∷ []

abbrev pub be32 : ℕ → List ℕ
be32 n = (n / 16777216) ∷ (n / 65536 % 256) ∷ (n / 256 % 256) ∷ (n % 256) ∷ []

abbrev pub of_be16 : ℕ → ℕ → ℕ
of_be16 a b = a * 256 + b

abbrev pub of_be32 : ℕ → ℕ → ℕ → ℕ → ℕ
of_be32 a b c d = a * 16777216 + b * 65536 + c * 256 + d

unfoldable pub encode_mapping_request : Protocol → ℕ → ℕ → ℕ → List ℕ
unfolding opcode
encode_mapping_request protocol internal_port requested_external_port lifetime_seconds =
    0 ∷ opcode protocol ∷ 0 ∷ 0 ∷ be16 internal_port
    ++ be16 requested_external_port
    ++ be32 lifetime_seconds

-- `response[i]`, of a response that is long enough.
abbrev pub at : List ℕ → ℕ → ℕ
at [] i = 0
at (b ∷ bs) zero = b
at (b ∷ bs) (suc i) = at bs i

unfoldable pub decode_mapping_response : List ℕ → Result Mapping
decode_mapping_response r =
    if length r == 16
    then ok (record {
      internal_port = of_be16 (at r 8) (at r 9);
      external_port = of_be16 (at r 10) (at r 11);
      lifetime_seconds = of_be32 (at r 12) (at r 13) (at r 14) (at r 15);
    })
    else err (invalid (mapping_length (length r)))

-- What became of one request: the send failed (or there was no socket to send from), nothing came
-- in time, the receipt failed, or a datagram came.
pub data Round : Type 0 where
  send_failed timed_out receive_failed : Round
  received : List ℕ → Round

-- The waits are in milliseconds.
abbrev pub initial_timeout : ℕ
initial_timeout = 250

-- The `loop` of `rpc`, with fuel; `none` means that the fuel ran out. The network answers the n-th
-- request by `net n`. A datagram is cut to the buffer's 16 bytes.
pub await_reply : ℕ → ℕ → ℕ → (ℕ → Round) → Option (Result (List ℕ))
await_reply zero wait sent net = none
await_reply (suc fuel) wait sent net = elim (net sent) [
  | send_failed ↦ some (err io)
  | receive_failed ↦ some (err io)
  | received datagram ↦ some (ok (take 16 datagram))
  | timed_out ↦ elim (ltb wait 2000) [
    | true ↦ await_reply fuel (wait * 2) (suc sent) net
    | false ↦ some (err timeout)
  ]
]

-- The checks of `rpc` on what was received.
unfoldable pub check_reply : List ℕ → ℕ → List ℕ → Result (List ℕ)
check_reply request expected_size response =
    if not (length response == expected_size)
    then err (invalid (size expected_size (length response)))
    else (if not (at response 0 == 0) || not (at response 1 == bit_or (at request 1) 128)
        then err (invalid version_or_opcode)
        else (let result = of_be16 (at response 2) (at response 3) in
            if not (result == 0) then err (gateway result) else ok response))

-- `rpc`: the waits are 250, 500, 1000 and 2000 ms, so that four rounds are fuel enough.
unfoldable pub rpc : List ℕ → ℕ → (ℕ → Round) → Option (Result (List ℕ))
unfolding await_reply check_reply
rpc request expected_size net = elim (await_reply 4 initial_timeout 0 net) [
  | none ↦ none
  | some reply ↦ some (reply >>= check_reply request expected_size)
]

-- `external_address`: the four bytes of the address.
unfoldable pub address_of : List ℕ → List ℕ
address_of r = at r 8 ∷ at r 9 ∷ at r 10 ∷ at r 11 ∷ []

unfoldable pub external_address : (ℕ → Round) → Option (Result (List ℕ))
unfolding rpc address_of
external_address net = elim (rpc (0 ∷ 0 ∷ []) 12 net) [
  | none ↦ none
  | some reply ↦ some (reply >>= λ r. ok (address_of r))
]

-- `Client::map`.
unfoldable pub request_mapping : Protocol → ℕ → ℕ → ℕ → (ℕ → Round) → Option (Result Mapping)
unfolding rpc encode_mapping_request decode_mapping_response
request_mapping protocol internal_port requested_external_port lifetime_seconds net =
    elim (rpc
      (encode_mapping_request protocol internal_port requested_external_port lifetime_seconds) 16
      net) [ none ↦ none | some reply ↦ some (reply >>= decode_mapping_response) ]

-- The comparison at the end of `request_symmetric_mapping`.
unfoldable pub agree : Mapping → Mapping → Result Mapping
agree u t =
    if not (u.internal_port == t.internal_port) || not (u.external_port == t.external_port)
    then err (invalid mappings_differ)
    else ok (record u { lifetime_seconds = min u.lifetime_seconds t.lifetime_seconds })

-- `request_symmetric_mapping` after its first mapping.
unfoldable pub then_tcp : ℕ → ℕ → (ℕ → Round) → Result Mapping → Option (Result Mapping)
unfolding request_mapping agree
then_tcp internal_port lifetime_seconds net (err e) = some (err e)
then_tcp internal_port lifetime_seconds net (ok u) =
    elim (request_mapping tcp internal_port u.external_port lifetime_seconds net) [
      | none ↦ none
      | some reply ↦ some (reply >>= agree u)
    ]

-- The two exchanges have a socket each.
unfoldable pub request_symmetric_mapping :
    ℕ → ℕ → ℕ → (ℕ → Round) → (ℕ → Round) → Option (Result Mapping)
unfolding then_tcp
request_symmetric_mapping internal_port requested_external_port lifetime_seconds udp_net tcp_net =
    elim (request_mapping udp internal_port requested_external_port lifetime_seconds udp_net) [
      | none ↦ none
      | some reply ↦ then_tcp internal_port lifetime_seconds tcp_net reply
    ]
