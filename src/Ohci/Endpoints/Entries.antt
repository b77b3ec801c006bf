-- ===== src/Ohci/Endpoints/Entries.antt =====
-- Where `ep_link` of portable-ohci-core.c puts an interrupt endpoint in the hcca's table.
use ps2_side_dumper.Base.{
  ℕ, ◌<◌, ◌≡◌, ◌≢◌, ◌∙◌, Bool, true, Option, none, some, arith, ◌==◌, if◌then◌else◌, length, get_or,
}
use native.Mathlib.Nat.{mod-lt}
use ps2_side_dumper.Ohci.Branches.{ep_2_n_interval, ep_int_ballance}
use ps2_side_dumper.Ohci.Branches.Slots.{
  interval-Leads, interval-Led, interval_few, interval_positive,
}
use ps2_side_dumper.Usb.{interrupt}
use ps2_side_dumper.Ohci.Endpoints.{start_link, ep_link}
use ps2_side_dumper.Ohci.Endpoints.Store.{Lists, update}
use ps2_side_dumper.Ohci.Endpoints.Tree.{link_interrupt}
use ps2_side_dumper.Ohci.Endpoints.Slots.{reaches, Filled, link_rounds-Filled}

-- What `ep_link` computes for an interrupt endpoint: the interval, the branch, and the entries of it
abbrev pub interval_of : ℕ → Lists → ℕ
interval_of e s = ep_2_n_interval (s.eds e).int_period

abbrev pub branch_of : ℕ → Lists → ℕ
branch_of e s = (ep_int_ballance s.ohci_int_load (interval_of e s) (s.eds e).int_load).0

abbrev pub in_branch : ℕ → Lists → ℕ → Bool
in_branch e s j = reaches (interval_of e s) (branch_of e s) j

-- Before the rounds
abbrev pub placed : ℕ → Lists → Lists
placed e s = record (start_link e s) {
  eds =
      update (start_link e s).eds e
        (λ ed. record ed { int_interval = interval_of e s; int_branch = branch_of e s });
  ohci_int_load = (ep_int_ballance s.ohci_int_load (interval_of e s) (s.eds e).int_load).1;
}

-- After the link
abbrev pub LinkedIn : ℕ → Lists → Option Lists → Type 0
LinkedIn e s none = ⊥
LinkedIn e s (some s') =
    ((j : ℕ)
      → j < 32
      → get_or s'.int_table j 0 ≡ (if in_branch e s j then e else get_or s.int_table j 0))
    × (s'.eds e ≡ (placed e s).eds e)
    × ((x : ℕ) → x ≢ e → s'.eds x ≡ s.eds x)
    × (length s'.int_table ≡ length s.int_table)
    × (s'.ohci_int_load ≡ (placed e s).ohci_int_load)

pub branch_small : (e : ℕ) (s : Lists) → branch_of e s < interval_of e s
unfolding ep_int_ballance
branch_small e s = mod-lt _ (interval_positive (s.eds e).int_period)

Filled-LinkedIn :
    (e : ℕ) (s : Lists) (o : Option Lists)
    → Filled e (interval_of e s) (branch_of e s) 0 (placed e s) o
    → LinkedIn e s o
Filled-LinkedIn e s none f = f
Filled-LinkedIn e s (some s') f = (
  λ j lt. f.0 j lt ∙ ground arith,
  f.2 (ground arith),
  λ x ne. f.1 x ne ∙ ground (arith, ne),
  f.3,
  f.4,
)

-- Where every entry of the branch that `ep_int_ballance` chooses is NULL, `ep_link` of an interrupt
-- endpoint ends, with fuel for more than 32 steps, and the entries that lead to the endpoint are then
-- exactly those of the branch, one in every interval; the other entries stay as they are. The endpoint
-- has its interval and its branch, and NULL behind it, the loads are those of `ep_int_ballance`, and no
-- other endpoint is changed.
pub ep_link-LinkedIn :
    (fuel e : ℕ) (s : Lists)
    → (s.eds e).kind ≡ interrupt
    → 32 < fuel
    → length s.int_table ≡ 32
    → ((j : ℕ) → j < 32 → in_branch e s j ≡ true → get_or s.int_table j 0 ≡ 0)
    → LinkedIn e s (ep_link fuel e s)
unfolding ep_link link_interrupt
ep_link-LinkedIn fuel e s kind enough len free =
    let self : (e == e) ≡ true = ground arith in
    let few = interval_few (s.eds e).int_period in
    rw (kind, ep_link, self)
      (Filled-LinkedIn e s _ (
        link_rounds-Filled e (interval_of e s) (branch_of e s) (branch_small e s) (interval-Leads _)
          (interval-Led _) few fuel 0 (placed e s) (omega (arith, few, enough)) (omega arith) len
          (λ j lt on le. free j lt on)))
