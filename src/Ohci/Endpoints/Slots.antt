-- ===== src/Ohci/Endpoints/Slots.antt =====
-- The rounds of the interrupt case of `ep_link` in portable-ohci-core.c, by the entries of the hcca's
-- table that they fill.
use ps2_side_dumper.Base.{
  ℕ, zero, suc, ◌+◌, ◌-◌, ◌%◌, ◌<◌, ◌≤◌, ◌≡◌, ◌≢◌, refl, ap, ◌∙◌, sym, Bool, true, false, ◌&&◌,
  Option, none, some, arith, ltb, ltb→lt, leb, ◌==◌, ==_iff, if◌then◌else◌, length, length-set,
  get_or, set, get_or-set_self, get_or-set_ne, Bool-cases, inl, inr,
}
use ps2_side_dumper.Ohci.Branches.{ep_rev}
use ps2_side_dumper.Ohci.Branches.Bits.{ep_rev-ep_rev}
use ps2_side_dumper.Ohci.Branches.Slots.{Leads, Led}
use ps2_side_dumper.Ohci.Endpoints.Store.{Lists, update, set_next}
use ps2_side_dumper.Ohci.Endpoints.Tree.{table_entry, read_cell, write_cell, walk_link, link_rounds}

-- Entry `j` is one of the branch: from it on, every so many.
abbrev pub reaches : ℕ → ℕ → ℕ → Bool
reaches interval branch j = leb branch j && ((j - branch) % interval == 0)

update_next :
    (e : ℕ) (s : Lists) → (s.eds e).hw_next_ed ≡ 0 → update s.eds e (set_next 0) e ≡ s.eds e
update_next e s null =
    let self : (e == e) ≡ true = ground arith in
    rw self (ap (λ n. record (s.eds e) { hw_next_ed = n }) (sym null))

module _ (e interval branch : ℕ) where
  -- The entry of round `i`, and the round of an entry
  abbrev pub slot : ℕ → ℕ
  slot i = ep_rev 5 i + branch

  abbrev pub round : ℕ → ℕ
  round j = ep_rev 5 (j - branch)

  -- The entries of the rounds from `i` on are NULL.
  abbrev pub Free : ℕ → Lists → Type 0
  Free i s =
      (j : ℕ) → j < 32 → reaches interval branch j ≡ true → i ≤ round j → get_or s.int_table j 0 ≡ 0

  -- After the rounds from `i` on
  abbrev pub Filled : ℕ → Lists → Option Lists → Type 0
  Filled i s none = ⊥
  Filled i s (some s') =
      ((j : ℕ)
        → j < 32
        → get_or s'.int_table j 0
          ≡ (if reaches interval branch j && leb i (round j) then e else get_or s.int_table j 0))
      × ((x : ℕ) → x ≢ e → s'.eds x ≡ s.eds x)
      × ((s.eds e).hw_next_ed ≡ 0 → s'.eds e ≡ s.eds e)
      × (length s'.int_table ≡ length s.int_table)
      × (s'.ohci_int_load ≡ s.ohci_int_load)

  walk_at_once :
      (fuel : ℕ) (s : Lists) (i : ℕ)
      → get_or s.int_table i 0 ≡ 0
      → walk_link (suc fuel) s interval (table_entry i) 1 ≡ some (table_entry i, 1)
  unfolding walk_link read_cell
  walk_at_once fuel s i null = rw null refl

  module _ (small : branch < interval) (leads : Leads interval) (led : Led interval)
      (few : ep_rev 6 interval ≤ 32) where
    pub slot-reaches :
        (i : ℕ)
        → i < ep_rev 6 interval
        → (slot i < 32) × (reaches interval branch (slot i) ≡ true) × (round (slot i) ≡ i)
    slot-reaches i less =
        let less32 : i < 32 = omega (arith, less, few) in
        let here = leads i less less32 in
        let back : slot i - branch ≡ ep_rev 5 i = omega arith in
        (
          omega (arith, small, here.1),
          rw back (ground (arith, here.0)),
          ap (ep_rev 5) back ∙ (ep_rev-ep_rev i less32).0,
        )

    pub round-slot : (j : ℕ) → j < 32 → reaches interval branch j ≡ true → slot (round j) ≡ j
    round-slot j lt on =
        let le : branch ≤ j = ground (arith, on) in
        rw (ep_rev-ep_rev (j - branch) (omega (arith, lt))).0 (omega (arith, le))

    -- The test of the next round, for the entry of this round and for the others
    pub next_other :
        (i j : ℕ)
        → j < 32
        → slot i ≢ j
        → (reaches interval branch j && leb (i + 1) (round j))
          ≡ (reaches interval branch j && leb i (round j))
    next_other i j lt other = elim (Bool-cases (reaches interval branch j)) [
      | inl on ↦ elim (Bool-cases (i == round j)) [
        | inl same ↦ absurd (other (ap slot ((==_iff i (round j)).0 same) ∙ round-slot j lt on))
        | inr apart ↦ rw on (ground (arith, apart))
      ]
      | inr off ↦ rw off refl
    ]

    earlier_Filled :
        (i : ℕ) (s : Lists) (o : Option Lists)
        → i < ep_rev 6 interval
        → length s.int_table ≡ 32
        → Filled
            (i + 1)
            (record s { eds = update s.eds e (set_next 0); int_table = set s.int_table (slot i) e })
            o
        → Filled i s o
    earlier_Filled i s none less len f = f
    earlier_Filled i s (some s') less len f =
        let place = slot-reaches i less in
        (
          λ j lt. f.0 j lt ∙ elim (Bool-cases (slot i == j)) [
            | inl same ↦ rw (← (==_iff (slot i) j).0 same) (
                rw
                  (
                    place.1,
                    place.2,
                    get_or-set_self s.int_table (slot i) e 0 (omega (arith, place.0, len)),
                  )
                  (ground arith))
            | inr apart ↦
                let other : slot i ≢ j = ground (arith, apart) in
                rw (get_or-set_ne s.int_table (slot i) j e 0 other, next_other i j lt other) refl
          ],
          λ x ne. f.1 x ne ∙ ground (arith, ne),
          λ null. f.2 (ground arith) ∙ update_next e s null,
          f.3 ∙ length-set s.int_table (slot i) e,
          f.4,
        )

    pub link_rounds-Filled :
        (fuel i : ℕ) (s : Lists)
        → ep_rev 6 interval < i + fuel
        → i ≤ ep_rev 6 interval
        → length s.int_table ≡ 32
        → Free i s
        → Filled i s (link_rounds fuel e interval branch (ep_rev 6 interval) i s)
    unfolding link_rounds read_cell write_cell
    link_rounds-Filled zero i s enough le len free = absurd (omega arith)
    link_rounds-Filled (suc fuel) i s enough le len free =
        elim (Bool-cases (ltb i (ep_rev 6 interval))) [
          | inl more ↦
              let less = ltb→lt i _ more in
              let place = slot-reaches i less in
              let null = free (slot i) place.0 place.1 (omega (arith, place.2)) in
              rw (more, link_rounds, walk_at_once fuel s (slot i) null, null)
                (earlier_Filled i s _ less len (
                  link_rounds-Filled fuel (i + 1) _ (omega (arith, enough)) (omega (arith, less))
                    (length-set s.int_table (slot i) e ∙ len)
                    (λ j lt on le'.
                      get_or-set_ne s.int_table (slot i) j e 0
                        (λ same. ground (arith, le', place.2, ap round same))
                      ∙ free j lt on (omega (arith, le')))))
          | inr done ↦
              rw (done, link_rounds)
                ((
                  λ j lt. elim (Bool-cases (reaches interval branch j)) [
                    | inl on ↦
                        let early = led (j - branch) (omega (arith, lt)) (ground (arith, on)) in
                        let past : leb i (round j) ≡ false = ground (arith, early, done) in
                        rw (on, past) refl
                    | inr off ↦ rw off refl
                  ],
                  λ x ne. refl,
                  λ null. refl,
                  refl,
                  refl,
                ))
        ]
