-- ===== src/Ohci/Endpoints/Relinked.antt =====
-- An interrupt endpoint that `ep_link` and then `ep_unlink` of portable-ohci-core.c are called for.
use ps2_side_dumper.Base.{
  ℕ, ◌<◌, ◌≡◌, ◌≢◌, refl, sym, ap, ◌∙◌, true, Option, none, some, arith, leb, ◌==◌, length, get_or,
  Bool-cases, inl, inr,
}
use ps2_side_dumper.Usb.{interrupt}
use ps2_side_dumper.Ohci.Branches.{num_ints}
use ps2_side_dumper.Ohci.Branches.Loads.{ep_int_ballance-loads}
use ps2_side_dumper.Ohci.Branches.Slots.{
  interval-Leads, interval-Led, interval_few, interval_positive,
}
use ps2_side_dumper.Ohci.Endpoints.{ep_link, ep_unlink, start_unlink, end_walk}
use ps2_side_dumper.Ohci.Endpoints.Loads.{sub_loads-added, length-ep_int_ballance}
use ps2_side_dumper.Ohci.Endpoints.Store.{Lists}
use ps2_side_dumper.Ohci.Endpoints.Tree.{unlink_rounds, sub_loads, unlink_interrupt}
use ps2_side_dumper.Ohci.Endpoints.Cleared.{Cleared, unlink_rounds-Cleared}
use ps2_side_dumper.Ohci.Endpoints.Entries.{
  in_branch, interval_of, branch_of, branch_small, placed, LinkedIn, ep_link-LinkedIn,
}
use ps2_side_dumper.Ohci.Endpoints.Slots.{round}

-- As before, but for the descriptor itself
abbrev pub Restored : ℕ → Lists → Option Lists → Type 0
Restored e s none = ⊥
Restored e s (some s') =
    ((j : ℕ) → j < 32 → get_or s'.int_table j 0 ≡ get_or s.int_table j 0)
    × ((j : ℕ) → j < 32 → get_or s'.ohci_int_load j 0 ≡ get_or s.ohci_int_load j 0)
    × ((x : ℕ) → x ≢ e → s'.eds x ≡ s.eds x)

module _ (fuel e : ℕ) (s : Lists) (kind : (s.eds e).kind ≡ interrupt) (pos : 0 < e)
    (enough : 32 < fuel) (len : length s.int_table ≡ 32) (loads : length s.ohci_int_load ≡ 32)
    (free : (j : ℕ) → j < 32 → in_branch e s j ≡ true → get_or s.int_table j 0 ≡ 0) where
  load_back :
      (j : ℕ)
      → j < 32
      → get_or
          (sub_loads num_ints
            (interval_of e s)
            (s.eds e).int_load
            (branch_of e s)
            (placed e s).ohci_int_load)
          j
          0
        ≡ get_or s.ohci_int_load j 0
  load_back j lt =
      let some_interval = interval_positive (s.eds e).int_period in
      let linked =
        ep_int_ballance-loads s.ohci_int_load (interval_of e s) (s.eds e).int_load j some_interval
          loads lt in
      sub_loads-added num_ints (interval_of e s) (s.eds e).int_load (branch_of e s)
        (placed e s).ohci_int_load j some_interval
        (length-ep_int_ballance s.ohci_int_load (interval_of e s) (s.eds e).int_load ∙ loads)
        (omega arith) lt
      ∙ (rw (linked.1.0) (omega arith))

  -- The fields of the descriptor that `ep_link` has set, as `ep_unlink` reads them
  abbrev Linked : Lists → Type 0
  Linked s' =
      (((start_unlink e s').eds e).int_interval ≡ interval_of e s)
      × (((start_unlink e s').eds e).int_branch ≡ branch_of e s)
      × (((start_unlink e s').eds e).hw_next_ed ≡ 0)
      × (((start_unlink e s').eds e).int_load ≡ (s.eds e).int_load)

  LinkedIn-Linked : (s' : Lists) → s'.eds e ≡ (placed e s).eds e → Linked s'
  LinkedIn-Linked s' l =
      let self : (e == e) ≡ true = ground arith in
      (
        rw self (ap (λ d. d.int_interval) l ∙ rw self refl),
        rw self (ap (λ d. d.int_branch) l ∙ rw self refl),
        rw self (ap (λ d. d.hw_next_ed) l ∙ rw self refl),
        rw self (ap (λ d. d.int_load) l ∙ rw self refl),
      )

  after_walk :
      (s' : Lists) (o : Option Lists)
      → LinkedIn e s (some s')
      → Linked s'
      → Cleared e (interval_of e s) (branch_of e s) 0 (start_unlink e s') o
      → Restored e s (
          end_walk e (elim o [
            | none ↦ none
            | some s1 ↦
                let ed = (start_unlink e s').eds e in
                some (record s1 {
                  ohci_int_load =
                      sub_loads num_ints ed.int_interval ed.int_load ed.int_branch s1.ohci_int_load;
                })
          ]))
  after_walk s' none l d c = c
  after_walk s' (some s1) l d c = (
    λ j lt. c.0 j lt ∙ elim (Bool-cases (in_branch e s j)) [
      | inl on ↦
          let first : leb 0 (round e (interval_of e s) (branch_of e s) j) ≡ true = ground arith in
          rw (on, first) (sym (free j lt on))
      | inr off ↦ rw off (l.0 j lt ∙ rw off refl)
    ],
    λ j lt. rw (d.0, d.1, d.3, c.2, l.4) (load_back j lt),
    λ x ne. rw c.1 (ground (arith, ne, l.2 x ne)),
  )

  unlink_after :
      (o : Option Lists)
      → LinkedIn e s o
      → Restored e s (elim o [ none ↦ none | some s' ↦ ep_unlink fuel e s' ])
  unfolding ep_unlink unlink_interrupt
  unlink_after none l = l
  unlink_after (some s') l =
      let self : (e == e) ≡ true = ground arith in
      let few = interval_few (s.eds e).int_period in
      let kind' : (s'.eds e).kind ≡ interrupt = ap (λ d. d.kind) l.1 ∙ rw self kind in
      let d = LinkedIn-Linked s' l.1 in
      rw (ep_unlink, kind')
        (after_walk s' (unlink_rounds fuel e 0 (start_unlink e s')) l d (
          unlink_rounds-Cleared e (interval_of e s) (branch_of e s) (branch_small e s)
            (interval-Leads _) (interval-Led _) few fuel 0 (start_unlink e s') pos
            (omega (arith, few, enough)) (omega arith) (l.3 ∙ len) (d.0, d.1, d.2)
            (λ j lt on le. l.0 j lt ∙ rw on refl)))

  -- Where every entry of the branch that `ep_int_ballance` chooses is NULL, `ep_unlink` after `ep_link`
  -- of an interrupt endpoint, each with fuel for more than 32 steps, ends and takes back what was done:
  -- every entry of the table and every load is as before, and no other endpoint is changed.
  pub ep_unlink-ep_link :
      Restored e s (elim (ep_link fuel e s) [ none ↦ none | some s' ↦ ep_unlink fuel e s' ])
  ep_unlink-ep_link =
      unlink_after (ep_link fuel e s) (ep_link-LinkedIn fuel e s kind enough len free)
