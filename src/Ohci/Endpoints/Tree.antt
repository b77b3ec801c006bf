-- ===== src/Ohci/Endpoints/Tree.antt =====
-- The interrupt and isochronous cases of `ep_link` and `ep_unlink` in portable-ohci-core.c: the tree
-- of interrupt endpoints under the 32 entries of the hcca's table. Each walk and each round takes
-- one of `fuel`, since a chain that runs into itself, or an interval of 0, keeps the code going.
use ps2_side_dumper.Base.{
  ℕ, zero, suc, ◌+◌, ◌-◌, true, false, Option, none, some, List, ltb, ◌==◌, ◌||◌, if◌then◌else◌,
  get_or, set,
}
use ps2_side_dumper.Ohci.Branches.{num_ints, ep_rev, ep_2_n_interval, ep_int_ballance}
use ps2_side_dumper.Ohci.Endpoints.Store.{Ed, Lists, update, set_next, set_prev}

-- What `ed_p` points to: an entry of the table, or the link of a descriptor.
pub data Cell : Type 0 where
  table_entry next_ed_of : ℕ → Cell

unfoldable pub read_cell : Lists → Cell → ℕ
read_cell s (table_entry i) = get_or s.int_table i 0
read_cell s (next_ed_of e) = (s.eds e).hw_next_ed

unfoldable pub write_cell : Lists → Cell → ℕ → Lists
write_cell s (table_entry i) v = record s { int_table = set s.int_table i v }
write_cell s (next_ed_of e) v = record s { eds = update s.eds e (set_next v) }

-- The walk of `ep_link`: past the descriptors whose interval is at least `least`. It returns the
-- cell where it stops, and `inter`.
unfoldable pub walk_link : ℕ → Lists → ℕ → Cell → ℕ → Option (Cell × ℕ)
walk_link zero s least c inter = none
walk_link (suc fuel) s least c inter =
    let e = read_cell s c in
    let rest = walk_link fuel s least (next_ed_of e) (ep_rev 6 (s.eds e).int_interval) in
    if (e == 0) || ltb (s.eds e).int_interval least then some (c, inter) else rest

-- The rounds of the interrupt case, from `i` on, below `bound`.
unfoldable pub link_rounds : ℕ → ℕ → ℕ → ℕ → ℕ → ℕ → Lists → Option Lists
link_rounds zero e interval branch bound i s = none
link_rounds (suc fuel) e interval branch bound i s = elim (ltb i bound) [
  | false ↦ some s
  | true ↦ elim (walk_link (suc fuel) s interval (table_entry (ep_rev 5 i + branch)) 1) [
    | none ↦ none
    | some (c, inter) ↦
        let s' = record s { eds = update s.eds e (set_next (read_cell s c)) } in
        link_rounds fuel e interval branch bound (i + inter) (write_cell s' c e)
  ]
]

unfoldable pub link_interrupt : ℕ → ℕ → Lists → Option Lists
link_interrupt fuel e s =
    let interval = ep_2_n_interval (s.eds e).int_period in
    let (branch, loads) = ep_int_ballance s.ohci_int_load interval (s.eds e).int_load in
    let found = λ (ed : Ed). record ed { int_interval = interval; int_branch = branch } in
    link_rounds fuel e interval branch (ep_rev 6 interval) 0
      (record s { eds = update s.eds e found; ohci_int_load = loads })

-- The rounds of the isochronous case: the descriptor is put at the end of each branch.
unfoldable pub iso_rounds : ℕ → ℕ → ℕ → Lists → Option Lists
iso_rounds zero e i s = none
iso_rounds (suc fuel) e i s = elim (ltb i num_ints) [
  | false ↦ some s
  | true ↦ elim (walk_link (suc fuel) s 0 (table_entry (ep_rev 5 i)) 1) [
    | none ↦ none
    | some (c, inter) ↦ iso_rounds fuel e (i + inter) (write_cell s c e)
  ]
]

unfoldable pub link_iso : ℕ → ℕ → Lists → Option Lists
link_iso fuel e s =
    let eds = update s.eds e (λ ed. record ed { int_interval = 1 }) in
    if s.ed_isotail == 0
    then elim (iso_rounds fuel e 0 (record s { eds = eds })) [
      | none ↦ none
      | some s' ↦ some (record s' { eds = update s'.eds e (set_prev 0); ed_isotail = e })
    ]
    else some (record s {
      eds = update (update eds s.ed_isotail (set_next e)) e (set_prev s.ed_isotail);
      ed_isotail = e;
    })

-- The walk of `ep_unlink` for an interrupt descriptor `e`, and `inter` at its end. The step reads
-- the interval of what stands behind the link, also where that is NULL.
unfoldable pub unlink_walk : ℕ → ℕ → Cell → ℕ → Lists → Option (ℕ × Lists)
unlink_walk zero e c inter s = none
unlink_walk (suc fuel) e c inter s =
    let x = read_cell s c in
    let rest =
      unlink_walk fuel e (next_ed_of x) (ep_rev 6 (s.eds (s.eds x).hw_next_ed).int_interval) s in
    if (x == 0) || (x == (s.eds e).hw_next_ed)
    then some (inter, s)
    else if x == e
    then some (inter, write_cell s c (s.eds e).hw_next_ed)
    else rest

unfoldable pub unlink_rounds : ℕ → ℕ → ℕ → Lists → Option Lists
unlink_rounds zero e i s = none
unlink_rounds (suc fuel) e i s = elim (ltb i (ep_rev 6 (s.eds e).int_interval)) [
  | false ↦ some s
  | true ↦ elim (unlink_walk (suc fuel) e (table_entry (ep_rev 5 i + (s.eds e).int_branch)) 1 s) [
    | none ↦ none
    | some (inter, s') ↦ unlink_rounds fuel e (i + inter) s'
  ]
]

-- The loop that takes the load off the branches, from `i` on, for an interval that `ep_link` has set:
-- it is at least 1, and the load has been added before.
unfoldable pub sub_loads : ℕ → ℕ → ℕ → ℕ → List ℕ → List ℕ
sub_loads zero interval load i loads = loads
sub_loads (suc fuel) interval load i loads = elim (ltb i num_ints) [
  | true ↦ sub_loads fuel interval load (i + interval) (set loads i (get_or loads i 0 - load))
  | false ↦ loads
]

unfoldable pub unlink_interrupt : ℕ → ℕ → Lists → Option Lists
unlink_interrupt fuel e s = elim (unlink_rounds fuel e 0 s) [
  | none ↦ none
  | some s' ↦
      let ed = s.eds e in
      some (record s' {
        ohci_int_load =
            sub_loads num_ints ed.int_interval ed.int_load ed.int_branch s'.ohci_int_load;
      })
]

-- The isochronous case: the search for `e` from each of the 32 entries, with CONFIG_PS2.
unfoldable pub iso_walk : ℕ → ℕ → Cell → Lists → Option Lists
iso_walk zero e c s = none
iso_walk (suc fuel) e c s =
    let x = read_cell s c in
    let rest = iso_walk fuel e (next_ed_of x) s in
    if x == 0 then some s else if x == e then some (write_cell s c (s.eds e).hw_next_ed) else rest

unfoldable pub unlink_iso_rounds : ℕ → ℕ → ℕ → ℕ → Lists → Option Lists
unlink_iso_rounds fuel e zero i s = some s
unlink_iso_rounds fuel e (suc left) i s = elim (iso_walk fuel e (table_entry (ep_rev 5 i)) s) [
  | none ↦ none
  | some s' ↦ unlink_iso_rounds fuel e left (i + 1) s'
]

unfoldable pub unlink_iso : ℕ → ℕ → Lists → Option Lists
unlink_iso fuel e s =
    let ed = s.eds e in
    let tail = if s.ed_isotail == e then ed.ed_prev else s.ed_isotail in
    let eds =
      if ed.hw_next_ed == 0 then s.eds else update s.eds ed.hw_next_ed (set_prev ed.ed_prev) in
    let s' = record s { eds = eds; ed_isotail = tail } in
    if ed.ed_prev == 0
    then unlink_iso_rounds fuel e num_ints 0 s'
    else some (record s' { eds = update eds ed.ed_prev (set_next ed.hw_next_ed) })
