-- ===== src/Tests/Natpmp.antt =====
-- A gateway of src/natpmp.rs that answers the second request, and delays of src/recovery.rs.
use egressy.Base.{ℕ, zero, suc, ◌≤◌, ◌≡◌, ◌≢◌, ◌↔◌, none, some, List, [], ◌∷◌, arith}
use egressy.Natpmp.{err, timeout, Round, timed_out, received, await_reply, initial_timeout}
use egressy.Natpmp.Exchange.{await_reply_ends}
use egressy.Recovery.{retry_delay_seconds, retry_delay_seconds_bounds}

abbrev reply : List ℕ
reply = 0 ∷ 129 ∷ 0 ∷ 0 ∷ 0 ∷ 0 ∷ 0 ∷ 1 ∷ 31 ∷ 144 ∷ 31 ∷ 145 ∷ 0 ∷ 0 ∷ 14 ∷ 16 ∷ []

abbrev net : ℕ → Round
net zero = timed_out
net (suc n) = received reply

await_reply_ends_example :
    (await_reply 4 initial_timeout 0 net ≢ none)
    × ((await_reply 4 initial_timeout 0 net ≡ some (err timeout))
        ↔ ((net 0 ≡ timed_out) × (net 1 ≡ timed_out) × (net 2 ≡ timed_out) × (net 3 ≡ timed_out)))
await_reply_ends_example = await_reply_ends net

retry_delay_seconds_bounds_example :
    let delay = retry_delay_seconds 3 300 1 in (delay ≤ 300) × (10 ≤ delay) × (delay ≤ 12)
retry_delay_seconds_bounds_example = retry_delay_seconds_bounds 3 300 1 (omega arith) (omega arith)
