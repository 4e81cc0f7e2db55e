-- ===== src/Natpmp/Exchange.antt =====
-- The exchange of src/natpmp.rs with a gateway: it ends, and what a mapping means.
use Prim.Native.Nat.{bit_or}
use egressy.Base.{ℕ, min, ◌≡◌, ◌≢◌, ◌↔◌, inl, inr, none, some, List, length, arith, Option-cases}
use egressy.Natpmp.{
  Protocol, udp, tcp, Mapping, Result, ok, err, timeout, Round, timed_out, await_reply, check_reply,
  rpc, at, of_be16, initial_timeout, request_mapping, agree, then_tcp, request_symmetric_mapping,
  encode_mapping_request,
}

-- Whatever the network does, four requests are enough for a reply or an error; the exchange times
-- out exactly when nothing comes in time for any of the four.
pub await_reply_ends :
    (net : ℕ → Round)
    → (await_reply 4 initial_timeout 0 net ≢ none)
      × ((await_reply 4 initial_timeout 0 net ≡ some (err timeout))
          ↔ ((net 0 ≡ timed_out) × (net 1 ≡ timed_out) × (net 2 ≡ timed_out) × (net 3 ≡ timed_out)))
unfolding await_reply
await_reply_ends net = ground arith

-- A reply is taken only if it has the size that is expected, version 0, the opcode of the request
-- with its top bit set, and the result code 0.
pub check_reply_iff :
    (request : List ℕ) (expected_size : ℕ) (response reply : List ℕ)
    → (check_reply request expected_size response ≡ ok reply) ↔ (
        (reply ≡ response)
        × (length response ≡ expected_size)
        × (at response 0 ≡ 0)
        × (at response 1 ≡ bit_or (at request 1) 128)
        × (of_be16 (at response 2) (at response 3) ≡ 0))
unfolding check_reply
check_reply_iff request expected_size response reply = ground arith

rpc-ne_none : (request : List ℕ) (n : ℕ) (net : ℕ → Round) → rpc request n net ≢ none
unfolding rpc
rpc-ne_none request n net e = elim (Option-cases (await_reply 4 initial_timeout 0 net)) [
  | inl f ↦ (await_reply_ends net).0 f
  | inr (r, f) ↦ ground arith
]

-- A mapping that is requested is had or fails: the exchange always ends.
request_mapping-ne_none :
    (p : Protocol) (i e l : ℕ) (net : ℕ → Round) → request_mapping p i e l net ≢ none
unfolding request_mapping
request_mapping-ne_none p i e l net h =
    ground (arith, rpc-ne_none (encode_mapping_request p i e l) 16 net)

agree-ok :
    (u t m : Mapping)
    → agree u t ≡ ok m
    → (t.internal_port ≡ u.internal_port)
      × (t.external_port ≡ u.external_port)
      × (m.internal_port ≡ u.internal_port)
      × (m.external_port ≡ u.external_port)
      × (m.lifetime_seconds ≡ min u.lifetime_seconds t.lifetime_seconds)
unfolding agree
agree-ok u t m e = ground (arith, e)

then_tcp-ne_none : (i l : ℕ) (net : ℕ → Round) (r : Result Mapping) → then_tcp i l net r ≢ none
unfolding then_tcp
then_tcp-ne_none i l net (err e) h = ground (arith, h)
then_tcp-ne_none i l net (ok u) h =
    elim (Option-cases (request_mapping tcp i u.external_port l net)) [
      | inl f ↦ request_mapping-ne_none tcp i u.external_port l net f
      | inr (r, f) ↦ ground (arith, f, h)
    ]

-- The request of a symmetric mapping always ends.
pub request_symmetric_mapping_ends :
    (i e l : ℕ) (udp_net tcp_net : ℕ → Round)
    → request_symmetric_mapping i e l udp_net tcp_net ≢ none
unfolding request_symmetric_mapping
request_symmetric_mapping_ends i e l udp_net tcp_net h =
    elim (Option-cases (request_mapping udp i e l udp_net)) [
      | inl f ↦ request_mapping-ne_none udp i e l udp_net f
      | inr (r, f) ↦ then_tcp-ne_none i l tcp_net r (ground (arith, f, h))
    ]
