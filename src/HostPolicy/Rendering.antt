-- ===== src/HostPolicy/Rendering.antt =====
-- The table that src/host_policy.rs renders is one it takes for current.
use egressy.Base.{◌≡◌, true, contains-append}
use egressy.HostPolicy.{
  HostPolicy, render_nft, nft_table_is_current, nft_head, nft_tail, quoted, ipv6_kill_switch_marker,
}

-- A host whose table is the one the policy renders has the current kill switch: a policy that was
-- just applied is never reported as stale for its table.
pub nft_table_is_current-render_nft :
    (p : HostPolicy) → nft_table_is_current p (render_nft p) ≡ true
unfolding render_nft nft_table_is_current
nft_table_is_current-render_nft p =
    contains-append (nft_head p) (quoted (ipv6_kill_switch_marker p)) (nft_tail p)
