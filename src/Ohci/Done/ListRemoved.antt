-- ===== src/Ohci/Done/ListRemoved.antt =====
-- What `dl_del_list` of portable-ohci-core.c does with a list of one endpoint that `ep_rm_ed` has put there.
use mathlib.Core.Path.{subst}
use ps2_side_dumper.Base.{
  if_both, ℕ, zero, suc, ◌-◌, ◌<◌, ◌≡◌, ◌≢◌, Bool-cases, refl, sym, inl, inr, true, false, Option,
  none, some, List, arith, ◌==◌, length,
}
use ps2_side_dumper.Ohci.Endpoints.Segment.{Fresh}
use ps2_side_dumper.Ohci.Queue.Chained.{Links}
use ps2_side_dumper.Ohci.Done.Del.{
  Driver, head_of, del_tds, end_walk, end_list, del_ed, del_eds, dl_del_list,
}
use ps2_side_dumper.Ohci.Done.Removed.{Left, Of, Quiet, Emptied, del_tds-Emptied}

-- The end of `dl_del_list` for an endpoint leaves its queue alone.
end_walk-Emptied :
    (e u tail n : ℕ) (d : Driver) (o : Option Driver)
    → Emptied e u tail n d o
    → Emptied e u tail n d (end_walk e tail o)
end_walk-Emptied e u tail n d none r = r
end_walk-Emptied e u tail n d (some d') r =
    let self : (e == e) ≡ true = ground arith in
    elim (Bool-cases (d'.host.lists.eds e).state.del) [
      | inl gone ↦ rw gone (rw self r.0, r.1, r.2, r.3, rw self r.4)
      | inr kept ↦ rw kept (rw self r.0, r.1, r.2, r.3, rw self r.4)
    ]

-- The queue is empty, and so is the list of endpoints for this frame.
abbrev pub ListEmptied : ℕ → ℕ → ℕ → ℕ → ℕ → Driver → Option Driver → Type 0
ListEmptied e u tail n frame d none = ⊥
ListEmptied e u tail n frame d (some d') =
    Emptied e u tail n d (some d') × (d'.host.ed_rm_list frame ≡ 0)

end_list-ListEmptied :
    (e u tail n frame : ℕ) (d : Driver) (o : Option Driver)
    → Emptied e u tail n d o
    → ListEmptied e u tail n frame d (end_list frame o)
end_list-ListEmptied e u tail n frame d none r = r
end_list-ListEmptied e u tail n frame d (some d') r =
    let self : (frame == frame) ≡ true = ground arith in
    elim (Bool-cases (d'.host.ed_rm_list (1 - frame) == 0)) [
      | inl last ↦ rw last (r, rw self refl)
      | inr more ↦ rw more (r, rw self refl)
    ]

after_ed :
    (complete : ℕ → Driver → Driver) (fuel e u tail n : ℕ) (d : Driver) (o : Option Driver)
    → (d.host.lists.eds e).rm_next ≡ 0
    → Emptied e u tail n d o
    → Emptied e u tail n d (elim o [
      | none ↦ none
      | some d' ↦ del_eds complete (suc fuel) (d'.host.lists.eds e).rm_next d'
    ])
unfolding del_eds
after_ed complete fuel e u tail n d none last r = r
after_ed complete fuel e u tail n d (some d') last r =
    let end : ((d'.host.lists.eds e).rm_next == 0) ≡ true = ground (arith, r.4, last) in
    rw (del_eds, end) r

del_eds-Emptied :
    (complete : ℕ → Driver → Driver) (fuel e u n : ℕ) (d : Driver)
    → e ≢ 0
    → (d.host.lists.eds e).rm_next ≡ 0
    → let ed = d.host.lists.eds e in
      Emptied e u ed.hw_tail n d (del_tds complete (suc fuel) e ed.hw_head (head_of e) ed.hw_tail d)
      → Emptied e u (d.host.lists.eds e).hw_tail n d (del_eds complete (suc (suc fuel)) e d)
unfolding del_ed del_eds
del_eds-Emptied complete fuel e u n d some_e last r =
    let tail = (d.host.lists.eds e).hw_tail in
    if_both (Emptied e u tail n d) (e == 0) _ _ (λ null. absurd (ground (arith, some_e, null)))
      (λ _. after_ed complete fuel e u tail n d _ last (end_walk-Emptied e u tail n d _ r))

-- For the one endpoint of its list, of which the queue is that of an urb as above, `dl_del_list` empties
-- the queue and the list.
pub dl_del_list-ListEmptied :
    (complete : ℕ → Driver → Driver) (fuel frame e u t tail : ℕ) (xs : List ℕ) (d : Driver)
    → Quiet complete
    → length xs < fuel
    → d.host.ed_rm_list frame ≡ e
    → e ≢ 0
    → (d.host.lists.eds e).rm_next ≡ 0
    → (d.host.lists.eds e).hw_head ≡ t
    → (d.host.lists.eds e).hw_tail ≡ tail
    → Links d.host.tds t xs tail
    → Fresh tail xs
    → Of d.host.tds u xs
    → Left (d.urbs u).hcpriv xs
    → (d.urbs u).async_unlink ≡ true
    → ListEmptied e u tail (length xs) frame d (dl_del_list complete (suc fuel) frame d)
unfolding dl_del_list
dl_del_list-ListEmptied complete zero frame e u t tail xs d quiet n first some_e last head back l f
      own left async =
    absurd (omega (arith, n))
dl_del_list-ListEmptied complete (suc fuel) frame e u t tail xs d quiet n first some_e last head
      back l f own left async =
    let d0 : Driver = record d { control_reset = false; bulk_reset = false } in
    let ed = d.host.lists.eds e in
    let o = λ (v : ℕ). end_list frame (del_eds complete (suc (suc fuel)) v d0) in
    let from_head = subst (λ (v : ℕ). Links d.host.tds v xs tail) (sym head) l in
    let emptied =
      del_tds-Emptied complete (suc fuel) e u ed.hw_head ed.hw_tail xs d0 quiet n refl
        (subst (λ (v : ℕ). Links d.host.tds ed.hw_head xs v) (sym back) from_head)
        (subst (λ (v : ℕ). Fresh v xs) (sym back) f) own left async in
    let done =
      end_list-ListEmptied e u ed.hw_tail (length xs) frame d
        (del_eds complete (suc (suc fuel)) e d0)
        (del_eds-Emptied complete fuel e u (length xs) d0 some_e last emptied) in
    subst (λ (v : ℕ). ListEmptied e u tail (length xs) frame d (o v)) (sym first)
      (subst (λ (v : ℕ). ListEmptied e u v (length xs) frame d (o e)) back done)
