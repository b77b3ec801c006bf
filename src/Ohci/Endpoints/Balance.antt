-- ===== src/Ohci/Endpoints/Balance.antt =====
-- The loads of the interrupt branches in portable-ohci-core.c, over any run of `ep_link` and `ep_unlink`.
use mathlib.Core.Path.{subst}
use ps2_side_dumper.Base.{
  ℕ, zero, suc, ◌+◌, ◌≡◌, refl, ◌∙◌, true, Option, none, some, List, ◌∷◌, ◌++◌, arith, ltb, ◌==◌,
  ◌||◌, if_both, Bool-cases, inl, inr,
}
use ps2_side_dumper.Usb.{interrupt}
use ps2_side_dumper.Ohci.Branches.{num_ints, ep_rev, ep_int_ballance}
use ps2_side_dumper.Ohci.Branches.Slots.{interval_positive}
use ps2_side_dumper.Ohci.Endpoints.{ep_link, ep_unlink, start_unlink, end_walk}
use ps2_side_dumper.Ohci.Endpoints.Store.{Lists, update, set_next}
use ps2_side_dumper.Ohci.Endpoints.Tree.{
  Cell, table_entry, next_ed_of, read_cell, write_cell, walk_link, link_rounds, link_interrupt,
  unlink_walk, unlink_rounds, sub_loads, unlink_interrupt,
}
use ps2_side_dumper.Ohci.Endpoints.Entries.{interval_of, branch_of, placed}
use ps2_side_dumper.Ohci.Endpoints.Loads.{Share, Exact, links-Exact, unlinks-Exact}

-- What an endpoint has of the loads, as its descriptor says
abbrev pub share_of : ℕ → Lists → Share
share_of e s = record {
  interval = (s.eds e).int_interval;
  load = (s.eds e).int_load;
  branch = (s.eds e).int_branch;
}

-- The loads and an endpoint's share of them are as before.
abbrev SameLoads : ℕ → Lists → Lists → Type 0
SameLoads e s s' = (s'.ohci_int_load ≡ s.ohci_int_load) × (share_of e s' ≡ share_of e s)

abbrev LoadsKept : ℕ → Lists → Option Lists → Type 0
LoadsKept e s none = Unit
LoadsKept e s (some s') = SameLoads e s s'

LoadsKept-trans :
    (e : ℕ) (a b : Lists) (o : Option Lists) → SameLoads e a b → LoadsKept e b o → LoadsKept e a o
LoadsKept-trans e a b none p q = tt
LoadsKept-trans e a b (some c) p q = (q.0 ∙ p.0, q.1 ∙ p.1)

update_next_share :
    (e x v : ℕ) (s : Lists)
    → share_of e (record s { eds = update s.eds x (set_next v) }) ≡ share_of e s
update_next_share e x v s = elim (Bool-cases (e == x)) [
  | inl same ↦ rw same refl
  | inr other ↦ rw other refl
]

write_cell-SameLoads : (e : ℕ) (s : Lists) (c : Cell) (v : ℕ) → SameLoads e s (write_cell s c v)
unfolding write_cell
write_cell-SameLoads e s (table_entry i) v = (refl, refl)
write_cell-SameLoads e s (next_ed_of x) v = (refl, update_next_share e x v s)

link_rounds-LoadsKept :
    (fuel e interval branch bound i : ℕ) (s : Lists)
    → LoadsKept e s (link_rounds fuel e interval branch bound i s)
unfolding link_rounds
link_rounds-LoadsKept zero e interval branch bound i s = tt
link_rounds-LoadsKept (suc fuel) e interval branch bound i s = elim (Bool-cases (ltb i bound)) [
  | inr done ↦ rw (done, link_rounds) (refl, refl)
  | inl more ↦
      rw (more, link_rounds)
        (round (walk_link (suc fuel) s interval (table_entry (ep_rev 5 i + branch)) 1)
          (λ j s'. link_rounds-LoadsKept fuel e interval branch bound j s'))
]
  where
    round :
        (o : Option (Cell × ℕ))
        → ((j : ℕ) (s' : Lists) → LoadsKept e s' (link_rounds fuel e interval branch bound j s'))
        → LoadsKept e s (elim o [
          | none ↦ none
          | some (c, inter) ↦
              let s' = record s { eds = update s.eds e (set_next (read_cell s c)) } in
              link_rounds fuel e interval branch bound (i + inter) (write_cell s' c e)
        ])
    round none ih = tt
    round (some (c, inter)) ih =
        let s' : Lists = record s { eds = update s.eds e (set_next (read_cell s c)) } in
        let there = write_cell-SameLoads e s' c e in
        LoadsKept-trans e s (write_cell s' c e) _
          (there.0, there.1 ∙ update_next_share e e (read_cell s c) s)
          (ih (i + inter) (write_cell s' c e))

abbrev WalkLoads : ℕ → Lists → Option (ℕ × Lists) → Type 0
WalkLoads e s none = Unit
WalkLoads e s (some (inter, s')) = SameLoads e s s'

unlink_walk-WalkLoads :
    (fuel e : ℕ) (c : Cell) (inter : ℕ) (s : Lists) → WalkLoads e s (unlink_walk fuel e c inter s)
unfolding unlink_walk
unlink_walk-WalkLoads zero e c inter s = tt
unlink_walk-WalkLoads (suc fuel) e c inter s =
    let x = read_cell s c in
    if_both (WalkLoads e s) ((x == 0) || (x == (s.eds e).hw_next_ed)) _ _ (λ _. (refl, refl))
      (λ _.
        if_both (WalkLoads e s) (x == e) _ _ (λ _. write_cell-SameLoads e s c (s.eds e).hw_next_ed)
          (λ _. unlink_walk-WalkLoads fuel e _ _ s))

unlink_rounds-LoadsKept : (fuel e i : ℕ) (s : Lists) → LoadsKept e s (unlink_rounds fuel e i s)
unfolding unlink_rounds
unlink_rounds-LoadsKept zero e i s = tt
unlink_rounds-LoadsKept (suc fuel) e i s =
    elim (Bool-cases (ltb i (ep_rev 6 (s.eds e).int_interval))) [
      | inr done ↦ rw (done, unlink_rounds) (refl, refl)
      | inl more ↦
          rw (more, unlink_rounds)
            (round (unlink_walk (suc fuel) e (table_entry (ep_rev 5 i + (s.eds e).int_branch)) 1 s)
              (unlink_walk-WalkLoads (suc fuel) e _ 1 s)
              (λ j s'. unlink_rounds-LoadsKept fuel e j s'))
    ]
  where
    round :
        (o : Option (ℕ × Lists))
        → WalkLoads e s o
        → ((j : ℕ) (s' : Lists) → LoadsKept e s' (unlink_rounds fuel e j s'))
        → LoadsKept e s
            (elim o [ none ↦ none | some (inter, s') ↦ unlink_rounds fuel e (i + inter) s' ])
    round none w ih = tt
    round (some (inter, s')) w ih = LoadsKept-trans e s s' _ w (ih (i + inter) s')

-- What `ep_link` makes of the loads
abbrev pub Added : ℕ → Lists → Option Lists → Type 0
Added e s none = Unit
Added e s (some s') =
    let chosen = ep_int_ballance s.ohci_int_load (interval_of e s) (s.eds e).int_load in
    (s'.ohci_int_load ≡ chosen.1)
    × (share_of e s'
        ≡ record { interval = interval_of e s; load = (s.eds e).int_load; branch = chosen.0 })

placed-Added : (e : ℕ) (s : Lists) (o : Option Lists) → LoadsKept e (placed e s) o → Added e s o
placed-Added e s none k = tt
placed-Added e s (some s') k =
    let self : (e == e) ≡ true = ground arith in (k.0, k.1 ∙ rw self refl)

ep_link-Added : (fuel e : ℕ) (s : Lists) → (s.eds e).kind ≡ interrupt → Added e s (ep_link fuel e s)
unfolding ep_link link_interrupt
ep_link-Added fuel e s kind =
    let self : (e == e) ≡ true = ground arith in
    rw (kind, ep_link, self)
      (placed-Added e s _ (
        link_rounds-LoadsKept fuel e (interval_of e s) (branch_of e s) (ep_rev 6 (interval_of e s))
          0 (placed e s)))

-- What `ep_unlink` makes of the loads
abbrev pub Subtracted : ℕ → Lists → Option Lists → Type 0
Subtracted e s none = Unit
Subtracted e s (some s') =
    let share = share_of e s in
    s'.ohci_int_load ≡ sub_loads num_ints share.interval share.load share.branch s.ohci_int_load

walked-Subtracted :
    (e : ℕ) (s : Lists) (o : Option Lists)
    → LoadsKept e (start_unlink e s) o
    → Subtracted e s (
        end_walk e (elim o [
          | none ↦ none
          | some s1 ↦
              let ed = (start_unlink e s).eds e in
              some (record s1 {
                ohci_int_load =
                    sub_loads num_ints ed.int_interval ed.int_load ed.int_branch s1.ohci_int_load;
              })
        ]))
walked-Subtracted e s none k = tt
walked-Subtracted e s (some s1) k = let self : (e == e) ≡ true = ground arith in rw (self, k.0) refl

ep_unlink-Subtracted :
    (fuel e : ℕ) (s : Lists) → (s.eds e).kind ≡ interrupt → Subtracted e s (ep_unlink fuel e s)
unfolding ep_unlink unlink_interrupt
ep_unlink-Subtracted fuel e s kind =
    rw (kind, ep_unlink)
      (walked-Subtracted e s (unlink_rounds fuel e 0 (start_unlink e s))
        (unlink_rounds-LoadsKept fuel e 0 (start_unlink e s)))

-- A call of `ep_link` or of `ep_unlink` that ends, for an interrupt endpoint. The endpoint that is
-- unlinked still has the share in its descriptor that it was linked with.
pub data LoadStep (s : Lists) (ss : List Share) : Lists → List Share → Type 0 where
  links :
      (fuel e : ℕ) {s' : Lists}
      → (s.eds e).kind ≡ interrupt
      → ep_link fuel e s ≡ some s'
      → LoadStep s ss s' (share_of e s' ∷ ss)
  unlinks :
      (fuel e : ℕ) (before after : List Share) {s' : Lists}
      → (s.eds e).kind ≡ interrupt
      → ep_unlink fuel e s ≡ some s'
      → ss ≡ before ++ (share_of e s ∷ after)
      → LoadStep s ss s' (before ++ after)

pub data LoadRun (s : Lists) (ss : List Share) : Lists → List Share → Type 0 where
  start : LoadRun s ss s ss
  then_step :
      {s' s'' : Lists} {ss' ss'' : List Share}
      → LoadRun s ss s' ss'
      → LoadStep s' ss' s'' ss''
      → LoadRun s ss s'' ss''

step-Exact :
    (s : Lists) (ss : List Share) {s' : Lists} {ss' : List Share}
    → LoadStep s ss s' ss'
    → Exact s.ohci_int_load ss
    → Exact s'.ohci_int_load ss'
step-Exact s ss (links fuel e {s'} kind run) v =
    let a = subst (Added e s) run (ep_link-Added fuel e s kind) in
    rw (a.0, a.1)
      (links-Exact s.ohci_int_load ss (interval_of e s) (s.eds e).int_load
        (interval_positive (s.eds e).int_period) v)
step-Exact s ss (unlinks fuel e before after {s'} kind run split) v =
    let a = subst (Subtracted e s) run (ep_unlink-Subtracted fuel e s kind) in
    rw a (
      unlinks-Exact s.ohci_int_load before after (share_of e s)
        (subst (Exact s.ohci_int_load) split v))

-- From loads that are all accounted for, and over any run of calls of `ep_link` and `ep_unlink` that end,
-- for interrupt endpoints, in whatever order, where an endpoint that is unlinked is one of those linked
-- and its descriptor still has the interval, the load and the branch that it was linked with: the load of
-- each of the 32 branches stays the sum of the loads of the endpoints linked to it.
pub run-Exact :
    {s : Lists} {ss : List Share} {s' : Lists} {ss' : List Share}
    → Exact s.ohci_int_load ss
    → LoadRun s ss s' ss'
    → Exact s'.ohci_int_load ss'
run-Exact v start = v
run-Exact v (then_step r st) = step-Exact _ _ st (run-Exact v r)
