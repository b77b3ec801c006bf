-- ===== src/Ohci/Branches/Slots.antt =====
-- Which entries of the hcca's table `ep_rev` numbers, for the intervals of `ep_2_n_interval` in
-- portable-ohci-core.c.
use ps2_side_dumper.Base.{
  ℕ, ◌+◌, ◌%◌, ◌^◌, ◌≤◌, ◌<◌, ◌≡◌, refl, true, not, ◌&&◌, ◌||◌, arith, ltb, ltb→lt, leb, ◌==◌,
}
use ps2_side_dumper.Base.Bits.{holds_from, holds_from_lem}
use ps2_side_dumper.Ohci.Branches.{ep_2_n_interval, ep_rev}

-- What is shown for the six intervals
unfoldable pub Six : (ℕ → Type 0) → Type 0
Six P = (k : ℕ) → k < 6 → P (2 ^ k)

pub at_interval : (P : ℕ → Type 0) (inter : ℕ) → Six P → P (ep_2_n_interval inter)
unfolding ep_2_n_interval Six
at_interval P inter all = all _ (ground arith)

slot_table :
    holds_from
      (λ k.
        holds_from
          (λ i.
            not (ltb i (ep_rev 6 (2 ^ k)))
            || ((ep_rev 5 i % 2 ^ k == 0) && leb (ep_rev 5 i + 2 ^ k) 32))
          0
          32)
      0
      6
    ≡ true
unfolding holds_from ep_rev
slot_table = refl

-- The entries that the rounds of `ep_link` lead to are those of the branch.
abbrev pub Leads : ℕ → Type 0
Leads interval =
    (i : ℕ)
    → i < ep_rev 6 interval
    → i < 32
    → (ep_rev 5 i % interval ≡ 0) × (ep_rev 5 i + interval ≤ 32)

leads : Six Leads
unfolding Six
leads k lt i less less32 = ground (
  arith,
  holds_from_lem _ 0 32 i (holds_from_lem _ 0 6 k slot_table (omega arith) (omega (arith, lt)))
      (omega arith) (omega (arith, less32)),
)

index_table :
    holds_from
      (λ k. holds_from (λ j. not (j % 2 ^ k == 0) || ltb (ep_rev 5 j) (ep_rev 6 (2 ^ k))) 0 32)
      0
      6
    ≡ true
unfolding holds_from ep_rev
index_table = refl

-- The entries of the branch are those that the rounds lead to.
abbrev pub Led : ℕ → Type 0
Led interval = (j : ℕ) → j < 32 → j % interval ≡ 0 → ep_rev 5 j < ep_rev 6 interval

led : Six Led
unfolding Six
led k lt j less whole = ground (
  arith,
  whole,
  holds_from_lem _ 0 32 j (holds_from_lem _ 0 6 k index_table (omega arith) (omega (arith, lt)))
      (omega arith) (omega (arith, less)),
)

few_table : holds_from (λ k. leb (ep_rev 6 (2 ^ k)) 32) 0 6 ≡ true
unfolding holds_from ep_rev
few_table = refl

-- How often an endpoint is linked, at most
few : Six (λ interval. ep_rev 6 interval ≤ 32)
unfolding Six
few k lt = ground (arith, holds_from_lem _ 0 6 k few_table (omega arith) (omega (arith, lt)))

positive_table : holds_from (λ k. ltb 0 (2 ^ k)) 0 6 ≡ true
unfolding holds_from
positive_table = refl

positive : Six (λ interval. 0 < interval)
unfolding Six
positive k lt = ltb→lt 0 _ (holds_from_lem _ 0 6 k positive_table (omega arith) (omega (arith, lt)))

module _ (inter : ℕ) where
  pub interval-Leads : Leads (ep_2_n_interval inter)
  interval-Leads = at_interval Leads inter leads

  pub interval-Led : Led (ep_2_n_interval inter)
  interval-Led = at_interval Led inter led

  pub interval_few : ep_rev 6 (ep_2_n_interval inter) ≤ 32
  interval_few = at_interval (λ interval. ep_rev 6 interval ≤ 32) inter few

  pub interval_positive : 0 < ep_2_n_interval inter
  interval_positive = at_interval (λ interval. 0 < interval) inter positive
