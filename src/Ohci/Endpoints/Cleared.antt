-- ===== src/Ohci/Endpoints/Cleared.antt =====
-- The entries of the hcca's table that the interrupt case of `ep_unlink` in portable-ohci-core.c takes
-- a descriptor out of.
use ps2_side_dumper.Base.{
  ℕ, zero, suc, ◌+◌, ◌-◌, ◌<◌, ◌≤◌, ◌≡◌, ◌≢◌, refl, ap, ◌∙◌, true, false, ◌&&◌, Option, none, some,
  arith, ltb, ltb→lt, leb, ◌==◌, ==_iff, if◌then◌else◌, length, length-set, get_or, set,
  get_or-set_self, get_or-set_ne, Bool-cases, inl, inr,
}
use ps2_side_dumper.Ohci.Branches.{ep_rev}
use ps2_side_dumper.Ohci.Branches.Slots.{Leads, Led}
use ps2_side_dumper.Ohci.Endpoints.Store.{Lists}
use ps2_side_dumper.Ohci.Endpoints.Tree.{
  table_entry, read_cell, write_cell, unlink_walk, unlink_rounds,
}
use ps2_side_dumper.Ohci.Endpoints.Slots.{reaches, slot, round, slot-reaches, next_other}

module _ (e interval branch : ℕ) where
  -- The descriptor has this interval and branch, and nothing behind it.
  abbrev Last : Lists → Type 0
  Last s =
      ((s.eds e).int_interval ≡ interval)
      × ((s.eds e).int_branch ≡ branch)
      × ((s.eds e).hw_next_ed ≡ 0)

  -- The entries of the rounds from `i` on lead to the descriptor.
  abbrev Taken : ℕ → Lists → Type 0
  Taken i s =
      (j : ℕ)
      → j < 32
      → reaches interval branch j ≡ true
      → i ≤ round e interval branch j
      → get_or s.int_table j 0 ≡ e

  abbrev pub Cleared : ℕ → Lists → Option Lists → Type 0
  Cleared i s none = ⊥
  Cleared i s (some s') =
      ((j : ℕ)
        → j < 32
        → get_or s'.int_table j 0 ≡ (
            if reaches interval branch j && leb i (round e interval branch j)
            then 0
            else get_or s.int_table j 0))
      × (s'.eds ≡ s.eds)
      × (s'.ohci_int_load ≡ s.ohci_int_load)

  found_at_once :
      (fuel : ℕ) (s : Lists) (i : ℕ)
      → 0 < e
      → (s.eds e).hw_next_ed ≡ 0
      → get_or s.int_table i 0 ≡ e
      → unlink_walk (suc fuel) e (table_entry i) 1 s
        ≡ some (1, record s { int_table = set s.int_table i 0 })
  unfolding unlink_walk read_cell write_cell
  found_at_once fuel s i pos null found =
      let some_ed : (e == 0) ≡ false = ground (arith, pos) in
      let self : (e == e) ≡ true = ground arith in rw (found, null, some_ed, self) refl

  module _ (small : branch < interval) (leads : Leads interval) (led : Led interval)
      (few : ep_rev 6 interval ≤ 32) where
    earlier_Cleared :
        (i : ℕ) (s : Lists) (o : Option Lists)
        → i < ep_rev 6 interval
        → length s.int_table ≡ 32
        → Cleared (i + 1) (record s { int_table = set s.int_table (slot e interval branch i) 0 }) o
        → Cleared i s o
    earlier_Cleared i s none less len f = f
    earlier_Cleared i s (some s') less len f =
        let at = slot e interval branch i in
        let place = slot-reaches e interval branch small leads led few i less in
        (
          λ j lt. f.0 j lt ∙ elim (Bool-cases (at == j)) [
            | inl same ↦ rw (← (==_iff at j).0 same) (
                rw
                  (
                    place.1,
                    place.2,
                    get_or-set_self s.int_table at 0 0 (omega (arith, place.0, len)),
                  )
                  (ground arith))
            | inr apart ↦
                let other : at ≢ j = ground (arith, apart) in
                rw
                  (
                    get_or-set_ne s.int_table at j 0 0 other,
                    next_other e interval branch small leads led few i j lt other,
                  )
                  refl
          ],
          f.1,
          f.2,
        )

    pub unlink_rounds-Cleared :
        (fuel i : ℕ) (s : Lists)
        → 0 < e
        → ep_rev 6 interval < i + fuel
        → i ≤ ep_rev 6 interval
        → length s.int_table ≡ 32
        → Last s
        → Taken i s
        → Cleared i s (unlink_rounds fuel e i s)
    unfolding unlink_rounds
    unlink_rounds-Cleared zero i s pos enough le len last taken = absurd (omega arith)
    unlink_rounds-Cleared (suc fuel) i s pos enough le len last taken =
        elim (Bool-cases (ltb i (ep_rev 6 interval))) [
          | inl more ↦
              let less = ltb→lt i _ more in
              let at = slot e interval branch i in
              let place = slot-reaches e interval branch small leads led few i less in
              let found = taken at place.0 place.1 (omega (arith, place.2)) in
              rw (unlink_rounds, last.0, more, last.1, found_at_once fuel s at pos last.2 found)
                (earlier_Cleared i s _ less len (
                  unlink_rounds-Cleared fuel (i + 1) _ pos (omega (arith, enough))
                    (omega (arith, less)) (length-set s.int_table at 0 ∙ len) last
                    (λ j lt on le'.
                      get_or-set_ne s.int_table at j 0 0
                        (λ same. ground (arith, le', place.2, ap (round e interval branch) same))
                      ∙ taken j lt on (omega (arith, le')))))
          | inr done ↦
              rw (unlink_rounds, last.0, done)
                (
                  λ j lt. elim (Bool-cases (reaches interval branch j)) [
                    | inl on ↦
                        let early = led (j - branch) (omega (arith, lt)) (ground (arith, on)) in
                        let past : leb i (round e interval branch j) ≡ false =
                          ground (arith, early, done) in
                        rw (on, past) refl
                    | inr off ↦ rw off refl
                  ],
                  refl,
                  refl,
                )
        ]
