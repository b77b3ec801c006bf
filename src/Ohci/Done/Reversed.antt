-- ===== src/Ohci/Done/Reversed.antt =====
-- `dl_reverse_done_list` of portable-ohci-core.c puts the done list in the order of completion.
use mathlib.Core.Path.{subst}
use mathlib.Core.Bool.{false≢true}
use ps2_side_dumper.Base.{
  if_both, ℕ, zero, suc, ◌+◌, ◌<◌, ap, ◌≡◌, refl, sym, ◌∙◌, inl, inr, true, false, Option, none,
  some, List, [], ◌∷◌, arith, ◌==◌, Bool-cases, length, ltb,
}
use ps2_side_dumper.Ohci.Endpoints.Segment.{Fresh, Distinct}
use ps2_side_dumper.Ohci.Queue.{TdCell, Tds, update_td, Priv}
use ps2_side_dumper.Ohci.Queue.Chained.{Links}
use ps2_side_dumper.Ohci.Done.{
  DoneState, handle_error, restart_ed, link_back, reverse_loop, dl_reverse_done_list,
}

-- From `head`, `next_dl_td` leads through `xs` to NULL.
abbrev pub DlLinks : Tds → ℕ → List ℕ → Type 0
DlLinks tds head [] = head ≡ 0
DlLinks tds head (x ∷ xs) = (head ≡ x) × DlLinks tds (tds x).next_dl_td xs

abbrev pub rev_onto : List ℕ → List ℕ → List ℕ
rev_onto [] done = done
rev_onto (x ∷ xs) done = rev_onto xs (x ∷ done)

-- Two memories differ in `next_dl_td` at most.
abbrev pub SameTds : Tds → Tds → Type 0
SameTds tds tds' = (x : ℕ) → record (tds' x) { next_dl_td = 0 } ≡ record (tds x) { next_dl_td = 0 }

abbrev pub Reverses : Tds → List ℕ → Option (ℕ × DoneState) → Type 0
Reverses tds xs none = ⊥
Reverses tds xs (some (t, s)) = DlLinks s.done_tds t xs × SameTds tds s.done_tds × (s.done_head ≡ 0)

-- The elements of the first list are not in the second.
abbrev pub Apart : List ℕ → List ℕ → Type 0
Apart [] ys = Unit
Apart (x ∷ xs) ys = Fresh x ys × Apart xs ys

Apart-cons : (y : ℕ) (xs ys : List ℕ) → Fresh y xs → Apart xs ys → Apart xs (y ∷ ys)
Apart-cons y [] ys f a = tt
Apart-cons y (x ∷ xs) ys f a = ((λ e. f.0 (sym e), a.0), Apart-cons y xs ys f.1 a.1)

DlLinks-update :
    (tds : Tds) (t : ℕ) (f : TdCell → TdCell) (head : ℕ) (xs : List ℕ)
    → Fresh t xs
    → DlLinks tds head xs
    → DlLinks (update_td tds t f) head xs
DlLinks-update tds t f head [] a l = l
DlLinks-update tds t f head (x ∷ xs) a l =
    let ih = DlLinks-update tds t f (tds x).next_dl_td xs a.1 l.1 in (l.0, ground (arith, a.0, ih))

abbrev set_dl : ℕ → TdCell → TdCell
set_dl v c = record c { next_dl_td = v }

Links-set_dl :
    (tds : Tds) (t v head : ℕ) (xs : List ℕ)
    → Links tds head xs 0
    → Links (update_td tds t (set_dl v)) head xs 0
Links-set_dl tds t v head [] l = l
Links-set_dl tds t v head (x ∷ xs) l =
    let ih = Links-set_dl tds t v (tds x).hw_next_td xs l.1 in (l.0, ground (arith, ih))

set_dl-SameTds : (tds : Tds) (t v : ℕ) → SameTds tds (update_td tds t (set_dl v))
set_dl-SameTds tds t v x = elim (Bool-cases (x == t)) [ inl e ↦ rw e refl | inr e ↦ rw e refl ]

restart_ed-tds :
    (c : TdCell) (s : DoneState)
    → ((restart_ed c s).done_tds ≡ s.done_tds) × ((restart_ed c s).done_head ≡ s.done_head)
unfolding restart_ed
restart_ed-tds c s = go (s.privs c.urb) refl
  where
    go :
        (o : Option Priv)
        → s.privs c.urb ≡ o
        → ((restart_ed c s).done_tds ≡ s.done_tds) × ((restart_ed c s).done_head ≡ s.done_head)
    go none e = rw (e, restart_ed) (refl, refl)
    go (some priv) e = elim (Bool-cases (ltb (c.index + 1) priv.length_)) [
      | inl h ↦ rw (e, restart_ed, h) (refl, refl)
      | inr h ↦ rw (e, restart_ed, h) (refl, refl)
    ]

handle_error-tds :
    (t : ℕ) (s : DoneState)
    → ((handle_error t s).done_tds ≡ s.done_tds) × ((handle_error t s).done_head ≡ s.done_head)
handle_error-tds t s =
    let same = λ (s' : DoneState). (s'.done_tds ≡ s.done_tds) × (s'.done_head ≡ s.done_head) in
    if_both same ((s.done_tds t).code == 0) _ _ (λ e. (refl, refl))
      (λ e.
        if_both same (s.done_eds (s.done_tds t).ed).halted _ _
          (λ h. restart_ed-tds (s.done_tds t) s) (λ h. (refl, refl)))

Reverses-trans :
    (a b : Tds) (xs : List ℕ) (o : Option (ℕ × DoneState))
    → SameTds a b
    → Reverses b xs o
    → Reverses a xs o
Reverses-trans a b xs none same r = r
Reverses-trans a b xs (some (t, s)) same r = (r.0, λ x. r.1 x ∙ same x, r.2)

reverse_loop-Reverses :
    (fuel t r : ℕ) (xs done : List ℕ) (s : DoneState)
    → length xs < fuel
    → s.done_head ≡ 0
    → Links s.done_tds t xs 0
    → DlLinks s.done_tds r done
    → Fresh 0 xs
    → Distinct xs
    → Apart xs done
    → Reverses s.done_tds (rev_onto xs done) (reverse_loop fuel t r r s)
unfolding reverse_loop
reverse_loop-Reverses zero t r xs done s n head l d z dx a = absurd (omega (arith, n))
reverse_loop-Reverses (suc fuel) t r [] done s n head l d z dx a =
    let end : (t == 0) ≡ true = ground (arith, l) in rw end (d, λ x. refl, head)
reverse_loop-Reverses (suc fuel) t r (x ∷ xs) done s n head l d z dx a =
    let (keep, keep_head) = handle_error-tds t s in
    let s' = link_back t r (handle_error t s) in
    let tds' = update_td s.done_tds t (set_dl r) in
    let now : s'.done_tds ≡ tds' = ap (λ (tds : Tds). update_td tds t (set_dl r)) keep in
    let go_on : (t == 0) ≡ false = ground (arith, l.0, z.0) in
    let here : (s.done_tds x).hw_next_td ≡ (tds' t).hw_next_td = ground (arith, l.0) in
    let back : (tds' x).next_dl_td ≡ r = ground (arith, l.0) in
    let ahead =
      subst (λ (y : ℕ). Links tds' y xs 0) here
        (Links-set_dl s.done_tds t r (s.done_tds x).hw_next_td xs l.1) in
    let behind =
      subst (λ (y : ℕ). DlLinks tds' y done) (sym back)
        (DlLinks-update s.done_tds t (set_dl r) r done
          (subst (λ (y : ℕ). Fresh y done) (sym l.0) a.0) d) in
    let ih =
      reverse_loop-Reverses fuel (s'.done_tds t).hw_next_td t xs (x ∷ done) s' (omega (arith, n))
        (keep_head ∙ head)
        (subst (λ (tds : Tds). Links tds (tds t).hw_next_td xs 0) (sym now) ahead)
        (subst (λ (tds : Tds). DlLinks tds t (x ∷ done)) (sym now) (l.0, behind)) z.1 dx.1
        (Apart-cons x xs done dx.0 a.1) in
    if_both (Reverses s.done_tds (rev_onto xs (x ∷ done))) (t == 0) _ _
      (λ over. absurd (false≢true (sym go_on ∙ over)))
      (λ on.
        Reverses-trans s.done_tds s'.done_tds (rev_onto xs (x ∷ done)) _
          (subst (SameTds s.done_tds) (sym now) (set_dl-SameTds s.done_tds t r)) ih)

Apart-nil : (xs : List ℕ) → Apart xs []
Apart-nil [] = tt
Apart-nil (x ∷ xs) = (tt, Apart-nil xs)

-- For a done list that hwNextTD leads through from the hcca to NULL, without a descriptor twice, and
-- fuel for more rounds than its length, `dl_reverse_done_list` returns the list reversed: from the
-- pointer it returns `next_dl_td` leads through the same descriptors in the opposite order to NULL.
-- All else in the descriptors is as before, also where endpoints were halted, and the hcca's list is
-- empty.
pub dl_reverse_done_list-Reverses :
    (fuel : ℕ) (xs : List ℕ) (s : DoneState)
    → length xs < fuel
    → Links s.done_tds s.done_head xs 0
    → Fresh 0 xs
    → Distinct xs
    → Reverses s.done_tds (rev_onto xs []) (dl_reverse_done_list fuel s)
unfolding dl_reverse_done_list
dl_reverse_done_list-Reverses fuel xs s n l z d =
    reverse_loop-Reverses fuel s.done_head 0 xs [] (record s { done_head = 0 }) n refl l refl z d
      (Apart-nil xs)
