-- ===== src/Ohci/Endpoints/Tests.antt =====
-- Runs of the model of the endpoint lists.
use ps2_side_dumper.Base.{
  ℕ, zero, suc, Option, none, some, ◌≡◌, get_or, refl, inl, inr, true, false, List, [], ◌∷◌,
  replicate, ltb, arith, if◌then◌else◌,
}
use ps2_side_dumper.Usb.{PipeType, bulk, control, interrupt}
use ps2_side_dumper.Ohci.Branches.{
  ep_rev, ep_2_n_interval, ep_int_ballance, least_loaded, add_loads,
}
use ps2_side_dumper.Ohci.Endpoints.{
  Ed, Lists, ed_unlink, ep_link, ep_unlink, unlink_interrupt, unlink_rounds, unlink_walk, sub_loads,
  link_interrupt, link_rounds, walk_link, read_cell, write_cell,
}
use ps2_side_dumper.Ohci.Endpoints.Loads.{Exact}
use ps2_side_dumper.Ohci.Endpoints.Balance.{
  share_of, LoadRun, start, then_step, links, unlinks, run-Exact,
}
use ps2_side_dumper.Ohci.Endpoints.Relinked.{Restored, ep_unlink-ep_link}
use ps2_side_dumper.Ohci.Endpoints.Entries.{LinkedIn, ep_link-LinkedIn}
use ps2_side_dumper.Ohci.Endpoints.Spec.{Served, Holds}
use ps2_side_dumper.Ohci.Endpoints.Run.{Call, linking, unlinking, Refined, run, run-refines}

-- Two control descriptors at 16 and 32, two bulk ones at 48 and 64; nothing is linked.
abbrev pub kinds : ℕ → PipeType
kinds x = if ltb x 48 then control else bulk

abbrev pub new_ed : PipeType → Ed
new_ed kind = record {
  kind = kind;
  state = ed_unlink;
  ed_skip = true;
  hw_info = 0;
  hw_head = 0;
  halted = false;
  hw_tail = 0;
  hw_next_ed = 0;
  ed_prev = 0;
  int_period = 0;
  int_branch = 0;
  int_load = 0;
  int_interval = 0;
  last_iso = 0;
  rm_next = 0;
}

abbrev pub no_lists : Lists
no_lists = record {
  eds = λ x. new_ed (kinds x);
  ed_controlhead = 0;
  ed_controltail = 0;
  ed_bulkhead = 0;
  ed_bulktail = 0;
  ed_isotail = 0;
  int_table = replicate 32 0;
  ohci_int_load = replicate 32 0;
}

abbrev no_served : Served
no_served = record { controls = []; bulks = [] }

no_lists-Holds : Holds no_lists no_served
no_lists-Holds = record {
  control_chain = (refl, refl);
  bulk_chain = (refl, refl);
  apart = tt;
  controls_on = tt;
  bulks_on = tt;
}

-- The first control descriptor leaves while the second stays, and comes back behind it.
abbrev calls : List Call
calls =
    linking 16
    ∷ linking 48
    ∷ linking 32
    ∷ unlinking 16
    ∷ linking 64
    ∷ linking 16
    ∷ unlinking 48
    ∷ []

run-refines_example :
    Refined kinds (run 0 calls no_lists) (record { controls = 32 ∷ 16 ∷ []; bulks = 64 ∷ [] })
run-refines_example =
    run-refines 0 kinds calls no_lists no_served no_lists-Holds (λ x. refl)
      (
        (inl refl, omega arith, tt),
        (
          (inr refl, omega arith, (omega arith, tt)),
          (
            (inl refl, omega arith, (omega arith, (omega arith, tt))),
            (
              inl (refl, refl),
              (
                (inr refl, omega arith, (omega arith, (omega arith, tt))),
                (
                  (inl refl, omega arith, (omega arith, (omega arith, (omega arith, tt)))),
                  (inr (refl, refl), tt),
                ),
              ),
            ),
          ),
        ),
      )

get_or-replicate : (n j : ℕ) → get_or {A = ℕ} (replicate n 0) j 0 ≡ 0
get_or-replicate zero j = refl
get_or-replicate (suc n) zero = refl
get_or-replicate (suc n) (suc j) = get_or-replicate n j

no_loads-Exact : Exact (replicate 32 0) []
no_loads-Exact = record { size = refl; sums = λ j lt. get_or-replicate 32 j; positive = tt }

-- Interrupt descriptors only, polled every 10 frames, so linked with an interval of 8
abbrev polled_lists : Lists
polled_lists = record no_lists {
  eds = λ x. record (new_ed interrupt) { int_period = 10; int_load = 5 };
}

ep_link-LinkedIn_example : LinkedIn 80 polled_lists (ep_link 33 80 polled_lists)
ep_link-LinkedIn_example =
    ep_link-LinkedIn 33 80 polled_lists refl (omega arith) refl (λ j lt on. get_or-replicate 32 j)

ep_unlink-ep_link_example :
    Restored 80 polled_lists
      (elim (ep_link 33 80 polled_lists) [ none ↦ none | some s' ↦ ep_unlink 33 80 s' ])
ep_unlink-ep_link_example =
    ep_unlink-ep_link 33 80 polled_lists refl (omega arith) (omega arith) refl refl
      (λ j lt on. get_or-replicate 32 j)

-- Two endpoints are linked, and the first is unlinked.
abbrev given : Option Lists → Lists
given none = polled_lists
given (some s) = s

abbrev once : Lists
once = given (ep_link 33 80 polled_lists)

abbrev twice : Lists
twice = given (ep_link 33 96 once)

linked_once : ep_link 33 80 polled_lists ≡ some once
unfolding ep_link link_interrupt link_rounds walk_link read_cell write_cell ep_rev ep_2_n_interval
    ep_int_ballance least_loaded add_loads
linked_once = refl

linked_twice : ep_link 33 96 once ≡ some twice
unfolding ep_link link_interrupt link_rounds walk_link read_cell write_cell ep_rev ep_2_n_interval
    ep_int_ballance least_loaded add_loads
linked_twice = refl

unlinked : ep_unlink 33 80 twice ≡ some (given (ep_unlink 33 80 twice))
unfolding ep_link ep_unlink unlink_interrupt unlink_rounds unlink_walk sub_loads link_interrupt
    link_rounds walk_link read_cell write_cell ep_rev ep_2_n_interval ep_int_ballance least_loaded
    add_loads
unlinked = refl

two_linked : LoadRun polled_lists [] twice (share_of 96 twice ∷ share_of 80 once ∷ [])
unfolding ep_link ep_unlink unlink_interrupt unlink_rounds unlink_walk sub_loads link_interrupt
    link_rounds walk_link read_cell write_cell ep_rev ep_2_n_interval ep_int_ballance least_loaded
    add_loads
two_linked =
    then_step (then_step start (links 33 80 refl linked_once)) (links 33 96 refl linked_twice)

run-Exact_example : Exact (given (ep_unlink 33 80 twice)).ohci_int_load (share_of 96 twice ∷ [])
unfolding ep_link ep_unlink unlink_interrupt unlink_rounds unlink_walk sub_loads link_interrupt
    link_rounds walk_link read_cell write_cell ep_rev ep_2_n_interval ep_int_ballance least_loaded
    add_loads
run-Exact_example =
    run-Exact {s = polled_lists} no_loads-Exact
      (then_step two_linked (unlinks 33 80 (share_of 96 twice ∷ []) [] refl unlinked refl))
