-- ===== src/Ohci/Branches/Bits.antt =====
-- `ep_2_n_interval` and `ep_rev` of portable-ohci-core.c.
use ps2_side_dumper.Base.{
  ℕ, ◌*◌, ◌^◌, ◌≤◌, ◌<◌, ◌≡◌, refl, ◌⊎◌, true, ◌&&◌, arith, ltb, ◌==◌, ==_iff,
}
use ps2_side_dumper.Base.Bits.{holds_from, holds_from_lem}
use ps2_side_dumper.Ohci.Branches.{ep_2_n_interval, ep_rev}

-- `ep_2_n_interval` rounds a positive interval down to a power of two, of at most 32.
pub ep_2_n_interval_bounds :
    (inter : ℕ)
    → 0 < inter
    → (ep_2_n_interval inter ≤ inter)
      × (ep_2_n_interval inter ≤ 32)
      × ((inter < 2 * ep_2_n_interval inter) ⊎ (ep_2_n_interval inter ≡ 32))
unfolding ep_2_n_interval
ep_2_n_interval_bounds inter pos = ground arith

rev_table : holds_from (λ w. (ep_rev 5 (ep_rev 5 w) == w) && ltb (ep_rev 5 w) 32) 0 32 ≡ true
unfolding holds_from ep_rev
rev_table = refl

-- On five bits `ep_rev` is its own inverse and stays below 32, so it numbers the 32 branches anew,
-- each once.
pub ep_rev-ep_rev : (w : ℕ) → w < 32 → (ep_rev 5 (ep_rev 5 w) ≡ w) × (ep_rev 5 w < 32)
ep_rev-ep_rev w h = ground (arith, holds_from_lem _ 0 32 w rev_table (omega arith) (omega arith))

interval_table : holds_from (λ k. (ep_rev 6 (2 ^ k) * 2 ^ k) == 32) 0 6 ≡ true
unfolding holds_from ep_rev
interval_table = refl

-- Of an interval 1, 2, 4, 8, 16 or 32, `ep_rev` on six bits gives the number of branches that an
-- endpoint with this interval is linked into.
pub ep_rev-interval : (k : ℕ) → k < 6 → ep_rev 6 (2 ^ k) * 2 ^ k ≡ 32
ep_rev-interval k h =
    (==_iff _ 32).0 (holds_from_lem _ 0 6 k interval_table (omega arith) (omega arith))
