-- ===== src/Ohci/Endpoints/Kept.antt =====
-- What `ep_unlink` of portable-ohci-core.c leaves alone, whatever the kind of the endpoint.
use ps2_side_dumper.Base.{
  if_both, ℕ, zero, suc, ◌+◌, ◌≡◌, ◌≢◌, refl, ◌∙◌, inl, inr, Bool, true, false, Option, none, some,
  List, arith, ltb, ◌==◌, ◌||◌, if◌then◌else◌, Bool-cases,
}
use ps2_side_dumper.Usb.{PipeType, isochronous, interrupt, control, bulk, other_type}
use ps2_side_dumper.Ohci.Branches.{num_ints, ep_rev}
use ps2_side_dumper.Ohci.Endpoints.{
  Ed, Lists, ed_unlink, update, set_next, set_prev, Cell, table_entry, next_ed_of, read_cell,
  write_cell, unlink_walk, unlink_rounds, unlink_interrupt, iso_walk, unlink_iso_rounds, unlink_iso,
  remove_ed, remove_head, remove_tail, start_unlink, end_unlink, end_walk, ep_unlink,
}

-- All but the links of a descriptor
abbrev pub SameBody : Ed → Ed → Type 0
SameBody a b =
    (b.state ≡ a.state) × (b.kind ≡ a.kind) × (b.ed_skip ≡ a.ed_skip) × (b.rm_next ≡ a.rm_next)

abbrev pub SameBodies : Lists → Lists → Type 0
SameBodies s s' = (x : ℕ) → SameBody (s.eds x) (s'.eds x)

pub SameBodies-trans : (a b c : Lists) → SameBodies a b → SameBodies b c → SameBodies a c
SameBodies-trans a b c p q x =
    ((q x).0 ∙ (p x).0, (q x).1 ∙ (p x).1, (q x).2 ∙ (p x).2, (q x).3 ∙ (p x).3)

-- The outcome of a walk
abbrev KeptBy : Lists → Option Lists → Type 0
KeptBy s none = Unit
KeptBy s (some s') = SameBodies s s'

KeptBy-trans : (a b : Lists) (o : Option Lists) → SameBodies a b → KeptBy b o → KeptBy a o
KeptBy-trans a b none p q = tt
KeptBy-trans a b (some c) p q = SameBodies-trans a b c p q

write_cell-SameBodies : (s : Lists) (c : Cell) (v : ℕ) → SameBodies s (write_cell s c v)
unfolding write_cell
write_cell-SameBodies s (table_entry i) v x = (refl, refl, refl, refl)
write_cell-SameBodies s (next_ed_of e) v x = ground arith

abbrev WalkKept : Lists → Option (ℕ × Lists) → Type 0
WalkKept s none = Unit
WalkKept s (some (inter, s')) = SameBodies s s'

unlink_walk-WalkKept :
    (fuel e : ℕ) (c : Cell) (inter : ℕ) (s : Lists) → WalkKept s (unlink_walk fuel e c inter s)
unfolding unlink_walk
unlink_walk-WalkKept zero e c inter s = tt
unlink_walk-WalkKept (suc fuel) e c inter s =
    let x = read_cell s c in
    if_both (WalkKept s) ((x == 0) || (x == (s.eds e).hw_next_ed)) _ _
      (λ _ x. (refl, refl, refl, refl))
      (λ _.
        if_both (WalkKept s) (x == e) _ _ (λ _. write_cell-SameBodies s c (s.eds e).hw_next_ed)
          (λ _. unlink_walk-WalkKept fuel e _ _ s))

rounds_after :
    (fuel e i : ℕ) (s : Lists) (o : Option (ℕ × Lists))
    → WalkKept s o
    → ((j : ℕ) (s' : Lists) → KeptBy s' (unlink_rounds fuel e j s'))
    → KeptBy s (elim o [ none ↦ none | some (inter, s') ↦ unlink_rounds fuel e (i + inter) s' ])
rounds_after fuel e i s none h ih = tt
rounds_after fuel e i s (some (inter, s')) h ih =
    KeptBy-trans s s' (unlink_rounds fuel e (i + inter) s') h (ih (i + inter) s')

unlink_rounds-KeptBy : (fuel e i : ℕ) (s : Lists) → KeptBy s (unlink_rounds fuel e i s)
unfolding unlink_rounds
unlink_rounds-KeptBy zero e i s = tt
unlink_rounds-KeptBy (suc fuel) e i s =
    elim (Bool-cases (ltb i (ep_rev 6 (s.eds e).int_interval))) [
      | inl more ↦
          rw (more, unlink_rounds)
            (rounds_after fuel e i s _ (unlink_walk-WalkKept (suc fuel) e _ 1 s)
              (λ j s'. unlink_rounds-KeptBy fuel e j s'))
      | inr done ↦ rw (done, unlink_rounds) (λ x. (refl, refl, refl, refl))
    ]

iso_walk-KeptBy : (fuel e : ℕ) (c : Cell) (s : Lists) → KeptBy s (iso_walk fuel e c s)
unfolding iso_walk
iso_walk-KeptBy zero e c s = tt
iso_walk-KeptBy (suc fuel) e c s =
    let x = read_cell s c in
    if_both (KeptBy s) (x == 0) _ _ (λ _ x. (refl, refl, refl, refl))
      (λ _.
        if_both (KeptBy s) (x == e) _ _ (λ _. write_cell-SameBodies s c (s.eds e).hw_next_ed)
          (λ _. iso_walk-KeptBy fuel e _ s))

iso_after :
    (fuel e left i : ℕ) (s : Lists) (o : Option Lists)
    → KeptBy s o
    → ((s' : Lists) → KeptBy s' (unlink_iso_rounds fuel e left (i + 1) s'))
    → KeptBy s (elim o [ none ↦ none | some s' ↦ unlink_iso_rounds fuel e left (i + 1) s' ])
iso_after fuel e left i s none h ih = tt
iso_after fuel e left i s (some s') h ih = KeptBy-trans s s' _ h (ih s')

unlink_iso_rounds-KeptBy :
    (fuel e left i : ℕ) (s : Lists) → KeptBy s (unlink_iso_rounds fuel e left i s)
unfolding unlink_iso_rounds
unlink_iso_rounds-KeptBy fuel e zero i s = λ x. (refl, refl, refl, refl)
unlink_iso_rounds-KeptBy fuel e (suc left) i s =
    iso_after fuel e left i s _ (iso_walk-KeptBy fuel e _ s)
      (λ s'. unlink_iso_rounds-KeptBy fuel e left (i + 1) s')

-- What `unlink_iso` does before it walks
iso_start :
    (s : Lists) (b : Bool) (n p t : ℕ)
    → SameBodies s
        (record s { eds = if b then s.eds else update s.eds n (set_prev p); ed_isotail = t })
iso_start s true n p t x = (refl, refl, refl, refl)
iso_start s false n p t x = ground arith

set_next-SameBodies :
    (s : Lists) (p n : ℕ) → SameBodies s (record s { eds = update s.eds p (set_next n) })
set_next-SameBodies s p n x = ground arith

unlink_iso-KeptBy : (fuel e : ℕ) (s : Lists) → KeptBy s (unlink_iso fuel e s)
unfolding unlink_iso
unlink_iso-KeptBy fuel e s =
    let ed = s.eds e in
    let tail = if s.ed_isotail == e then ed.ed_prev else s.ed_isotail in
    let start = iso_start s (ed.hw_next_ed == 0) ed.hw_next_ed ed.ed_prev tail in
    let s' : Lists = record s {
      eds = if ed.hw_next_ed == 0 then s.eds else update s.eds ed.hw_next_ed (set_prev ed.ed_prev);
      ed_isotail = tail;
    } in
    if_both (KeptBy s) (ed.ed_prev == 0) _ _
      (λ _. KeptBy-trans s s' _ start (unlink_iso_rounds-KeptBy fuel e num_ints 0 s'))
      (λ _.
        SameBodies-trans s s'
          (record s' { eds = update s'.eds ed.ed_prev (set_next ed.hw_next_ed) }) start
          (set_next-SameBodies s' ed.ed_prev ed.hw_next_ed))

loads_only :
    (s : Lists) (loads : Lists → List ℕ) (o : Option Lists)
    → KeptBy s o
    → KeptBy s (elim o [ none ↦ none | some s' ↦ some (record s' { ohci_int_load = loads s' }) ])
loads_only s loads none h = tt
loads_only s loads (some s') h = h

unlink_interrupt-KeptBy : (fuel e : ℕ) (s : Lists) → KeptBy s (unlink_interrupt fuel e s)
unfolding unlink_interrupt
unlink_interrupt-KeptBy fuel e s =
    loads_only s _ (unlink_rounds fuel e 0 s) (unlink_rounds-KeptBy fuel e 0 s)

remove_ed-SameBodies :
    (s : Lists) (tail e : ℕ) (x : ℕ) → SameBody (s.eds x) (remove_ed s.eds tail e x)
unfolding remove_ed
remove_ed-SameBodies s tail e x = ground arith

-- What is left of an unlinked descriptor and of the others
abbrev pub Unlinked : ℕ → Lists → Option Lists → Type 0
Unlinked e s none = Unit
Unlinked e s (some s') =
    ((s'.eds e).state ≡ ed_unlink)
    × ((s'.eds e).ed_skip ≡ true)
    × ((s'.eds e).rm_next ≡ (s.eds e).rm_next)
    × ((x : ℕ) → x ≢ e → SameBody (s.eds x) (s'.eds x))

end_unlink-Unlinked :
    (e : ℕ) (s s' : Lists)
    → SameBodies (start_unlink e s) s'
    → Unlinked e s (some (end_unlink e s'))
end_unlink-Unlinked e s s' h =
    let k = h e in
    let at : (e == e) ≡ true = ground arith in
    (
      rw at refl,
      rw at (ground (arith, k)),
      rw at (ground (arith, k)),
      λ x ne.
          let same = h x in
          let other : (x == e) ≡ false = ground (arith, ne) in
          rw other (ground (arith, same, other)),
    )

end_walk-Unlinked :
    (e : ℕ) (s : Lists) (o : Option Lists)
    → KeptBy (start_unlink e s) o
    → Unlinked e s (end_walk e o)
end_walk-Unlinked e s none h = tt
end_walk-Unlinked e s (some s') h = end_unlink-Unlinked e s s' h

-- What holds of each case
by_kind :
    {A : Type 0} (P : A → Type 0) (k : PipeType) (a b c d f : A)
    → P a
    → P b
    → P c
    → P d
    → P f
    → P (elim k [ control ↦ c | bulk ↦ d | interrupt ↦ b | isochronous ↦ a | other_type ↦ f ])
by_kind P isochronous a b c d f p q r s t = p
by_kind P interrupt a b c d f p q r s t = q
by_kind P control a b c d f p q r s t = r
by_kind P bulk a b c d f p q r s t = s
by_kind P other_type a b c d f p q r s t = t

-- Whatever the kind of the endpoint, `ep_unlink` leaves it skipped and in the state ED_UNLINK, and
-- changes of the other descriptors the links alone.
pub ep_unlink-Unlinked : (fuel e : ℕ) (s : Lists) → Unlinked e s (ep_unlink fuel e s)
unfolding ep_unlink
ep_unlink-Unlinked fuel e s =
    let s' = start_unlink e s in
    let controls : Lists = record s' {
      eds = remove_ed s'.eds s.ed_controltail e;
      ed_controlhead = remove_head s'.eds s.ed_controlhead e;
      ed_controltail = remove_tail s'.eds s.ed_controltail e;
    } in
    let bulks : Lists = record s' {
      eds = remove_ed s'.eds s.ed_bulktail e;
      ed_bulkhead = remove_head s'.eds s.ed_bulkhead e;
      ed_bulktail = remove_tail s'.eds s.ed_bulktail e;
    } in
    by_kind (Unlinked e s) (s.eds e).kind _ _ _ _ _
      (end_walk-Unlinked e s _ (unlink_iso-KeptBy fuel e s'))
      (end_walk-Unlinked e s _ (unlink_interrupt-KeptBy fuel e s'))
      (end_unlink-Unlinked e s controls (remove_ed-SameBodies s' s.ed_controltail e))
      (end_unlink-Unlinked e s bulks (remove_ed-SameBodies s' s.ed_bulktail e))
      (end_unlink-Unlinked e s s' (λ x. (refl, refl, refl, refl)))
