-- ===== src/Ohci/Interrupt/Finishes.antt =====
-- What the interrupt for the done list in portable-ohci-core.c does for an urb without errors.
use mathlib.Core.Path.{subst}
use mathlib.Core.Bool.{false≢true}
use ps2_side_dumper.Base.{
  if_both, ℕ, zero, suc, ◌+◌, ◌-◌, ◌%◌, ◌<◌, ap, ◌≡◌, ◌≢◌, refl, sym, ◌∙◌, Bool, true, false, not,
  ◌&&◌, ◌||◌, Option, none, some, List, [], ◌∷◌, arith, ◌==◌, length,
}
use ps2_side_dumper.Ohci.Endpoints.{Eds}
use ps2_side_dumper.Ohci.Endpoints.Segment.{Fresh, Distinct}
use ps2_side_dumper.Ohci.Queue.{TdCell, Tds, Priv, update_td}
use ps2_side_dumper.Ohci.Queue.Chained.{Links}
use ps2_side_dumper.Ohci.Done.{
  DoneState, handle_error, link_back, reverse_loop, dl_reverse_done_list,
}
use ps2_side_dumper.Ohci.Done.Reversed.{rev_onto, SameTds, Reverses, dl_reverse_done_list-Reverses}
use ps2_side_dumper.Ohci.Done.Del.{Driver, set_host}
use ps2_side_dumper.Ohci.Done.Removed.{Of, Quiet, HookReturns}
use ps2_side_dumper.Ohci.Done.Returned.{Parts, Returnable, InUse}
use ps2_side_dumper.Ohci.Done.Finished.{At, uses_end, Finished, dl_done_list-Finished}
use ps2_side_dumper.Ohci.Interrupt.{
  done_state, after_reverse, finish_reversed, write_back, Interrupts, hc_interrupt, then_frame,
}

-- The controller reports no error for these descriptors.
abbrev pub NoErrors : Tds → List ℕ → Type 0
NoErrors tds [] = Unit
NoErrors tds (x ∷ xs) = ((tds x).code ≡ 0) × NoErrors tds xs

abbrev Undisturbed : DoneState → Option (ℕ × DoneState) → Type 0
Undisturbed s none = ⊥
Undisturbed s (some (t, s')) = (s'.done_eds ≡ s.done_eds) × (s'.privs ≡ s.privs)

abbrev set_dl : ℕ → TdCell → TdCell
set_dl v c = record c { next_dl_td = v }

Links-set_dl :
    (tds : Tds) (t v head : ℕ) (xs : List ℕ)
    → Links tds head xs 0
    → NoErrors tds xs
    → Links (update_td tds t (set_dl v)) head xs 0 × NoErrors (update_td tds t (set_dl v)) xs
Links-set_dl tds t v head [] l c = (l, tt)
Links-set_dl tds t v head (x ∷ xs) l c =
    let ih = Links-set_dl tds t v (tds x).hw_next_td xs l.1 c.1 in
    ((l.0, ground (arith, ih)), (ground (arith, c.0), ih.1))

reverse_loop-Undisturbed :
    (fuel t r : ℕ) (xs : List ℕ) (s : DoneState)
    → length xs < fuel
    → Links s.done_tds t xs 0
    → Fresh 0 xs
    → NoErrors s.done_tds xs
    → Undisturbed s (reverse_loop fuel t r r s)
unfolding reverse_loop
reverse_loop-Undisturbed zero t r xs s n l z c = absurd (omega (arith, n))
reverse_loop-Undisturbed (suc fuel) t r [] s n l z c =
    let end : (t == 0) ≡ true = ground (arith, l) in rw end (refl, refl)
reverse_loop-Undisturbed (suc fuel) t r (x ∷ xs) s n l z c =
    let fine : ((s.done_tds t).code == 0) ≡ true = ground (arith, l.0, c.0) in
    let calm : handle_error t s ≡ s =
      if_both (λ (s' : DoneState). s' ≡ s) ((s.done_tds t).code == 0) _ _ (λ _. refl)
        (λ bad. absurd (false≢true (sym bad ∙ fine))) in
    let s' = link_back t r s in
    let here : (s.done_tds x).hw_next_td ≡ (s'.done_tds t).hw_next_td = ground (arith, l.0) in
    let kept = Links-set_dl s.done_tds t r (s.done_tds x).hw_next_td xs l.1 c.1 in
    let ih =
      reverse_loop-Undisturbed fuel (s'.done_tds t).hw_next_td t xs s' (omega (arith, n))
        (subst (λ (y : ℕ). Links s'.done_tds y xs 0) here kept.0) z.1 kept.1 in
    let on : (t == 0) ≡ false = ground (arith, l.0, z.0) in
    let rest = λ (s0 : DoneState).
      reverse_loop fuel ((link_back t r s0).done_tds t).hw_next_td t t (link_back t r s0) in
    if_both (Undisturbed s) (t == 0) _ _ (λ over. absurd (false≢true (sym on ∙ over)))
      (λ _. subst (λ (s0 : DoneState). Undisturbed s (rest s0)) (sym calm) ih)

-- What holds for each element holds for each of the list reversed.
rev-Fresh : (e : ℕ) (xs ys : List ℕ) → Fresh e xs → Fresh e ys → Fresh e (rev_onto xs ys)
rev-Fresh e [] ys f g = g
rev-Fresh e (x ∷ xs) ys f g = rev-Fresh e xs (x ∷ ys) f.1 (f.0, g)

rev-Of :
    (tds : Tds) (u : ℕ) (xs ys : List ℕ) → Of tds u xs → Of tds u ys → Of tds u (rev_onto xs ys)
rev-Of tds u [] ys f g = g
rev-Of tds u (x ∷ xs) ys f g = rev-Of tds u xs (x ∷ ys) f.1 (f.0, g)

rev-At :
    (tds : Tds) (e : ℕ) (xs ys : List ℕ) → At tds e xs → At tds e ys → At tds e (rev_onto xs ys)
rev-At tds e [] ys f g = g
rev-At tds e (x ∷ xs) ys f g = rev-At tds e xs (x ∷ ys) f.1 (f.0, g)

length-rev_onto : (xs ys : List ℕ) → length (rev_onto xs ys) ≡ length xs + length ys
length-rev_onto [] ys = omega arith
length-rev_onto (x ∷ xs) ys = let ih = length-rev_onto xs (x ∷ ys) in omega (arith, ih)

Of-SameTds : (a b : Tds) (u : ℕ) (xs : List ℕ) → SameTds a b → Of a u xs → Of b u xs
Of-SameTds a b u [] same o = tt
Of-SameTds a b u (x ∷ xs) same o =
    (ap (λ (c : TdCell). c.urb) (same x) ∙ o.0, Of-SameTds a b u xs same o.1)

At-SameTds : (a b : Tds) (e : ℕ) (xs : List ℕ) → SameTds a b → At a e xs → At b e xs
At-SameTds a b e [] same o = tt
At-SameTds a b e (x ∷ xs) same o =
    (ap (λ (c : TdCell). c.ed) (same x) ∙ o.0, At-SameTds a b e xs same o.1)

-- The private part depends on how many descriptors are left only.
Parts-length : (o : Option Priv) (xs ys : List ℕ) → length xs ≡ length ys → Parts o xs → Parts o ys
Parts-length none [] [] n p = p
Parts-length none [] (y ∷ ys) n p = absurd (omega (arith, n))
Parts-length none (x ∷ xs) ys n p = absurd p
Parts-length (some priv) [] ys n p = absurd p
Parts-length (some priv) (x ∷ xs) [] n p = absurd (omega (arith, n))
Parts-length (some priv) (x ∷ xs) (y ∷ ys) n p = (p.0, omega (arith, n, p.1))

uses_end-pos : (ys : List ℕ) (n : ℕ) → 0 < length ys → uses_end ys n ≡ n - 1
uses_end-pos [] n h = absurd (omega (arith, h))
uses_end-pos (y ∷ ys) n h = refl

-- The urb was returned once, and its endpoint is in use still.
abbrev pub AllReturned : ℕ → ℕ → Driver → Option Driver → Type 0
AllReturned e u d none = ⊥
AllReturned e u d (some d') =
    ((d'.urbs u).hcpriv ≡ none) × (d'.host.uses ≡ d.host.uses - 1) × InUse (d'.host.lists.eds e)

Finished-AllReturned :
    (e u : ℕ) (ys : List ℕ) (d d' : Driver) (o : Option Driver)
    → 0 < length ys
    → d'.host.uses ≡ d.host.uses
    → Finished e u ys d' o
    → AllReturned e u d o
Finished-AllReturned e u ys d d' none h same f = f
Finished-AllReturned e u ys d d' (some d'') h same f =
    (f.0, f.1 ∙ uses_end-pos ys d'.host.uses h ∙ ap (λ (n : ℕ). n - 1) same, f.3)

-- A done list for one urb, as the controller leaves it: the descriptors that the urb has left, without
-- an error, for an urb that may be returned and an endpoint that is in use
pub record DoneFor (e u : ℕ) (xs : List ℕ) (d : Driver) : Type 0 where
  pub some_left : 0 < length xs
  pub chain : Links d.host.tds (d.hcca_done_head - d.hcca_done_head % 16) xs 0
  pub not_null : Fresh 0 xs
  pub distinct : Distinct xs
  pub no_errors : NoErrors d.host.tds xs
  pub of_urb : Of d.host.tds u xs
  pub at_ed : At d.host.tds e xs
  pub part : Parts (d.urbs u).hcpriv xs
  pub returnable : Returnable (d.urbs u)
  pub in_use : InUse (d.host.lists.eds e)

finish_reversed-AllReturned :
    (complete : ℕ → Driver → Driver) (on_return : ℕ → Driver → Bool) (fuel : ℕ) (toggled : Bool)
    (e u : ℕ) (xs : List ℕ) (d : Driver) (o : Option (ℕ × DoneState))
    → Quiet complete
    → HookReturns on_return
    → length xs < fuel
    → DoneFor e u xs d
    → Reverses d.host.tds (rev_onto xs []) o
    → Undisturbed (done_state d) o
    → AllReturned e u d (finish_reversed complete on_return fuel toggled d o)
finish_reversed-AllReturned complete on_return fuel toggled e u xs d none quiet hook n h r un = r
finish_reversed-AllReturned complete on_return fuel toggled e u xs d (some (t, s)) quiet hook n h r
      un =
    let ys = rev_onto xs [] in
    let len : length ys ≡ length xs = omega (arith, length-rev_onto xs []) in
    let same_part = ap (λ (f : ℕ → Option Priv). f u) un.1 in
    let part =
      subst (λ (o : Option Priv). Parts o ys) (sym same_part)
        (Parts-length (d.urbs u).hcpriv xs ys (sym len) h.part) in
    Finished-AllReturned e u ys d (after_reverse s d) _ (omega (arith, len, h.some_left)) refl (
      dl_done_list-Finished complete on_return fuel toggled e u t ys (after_reverse s d) quiet hook
        (omega (arith, len, n)) r.0 (rev-Fresh 0 xs [] h.not_null tt)
        (Of-SameTds d.host.tds s.done_tds u ys r.1 (rev-Of d.host.tds u xs [] h.of_urb tt))
        (At-SameTds d.host.tds s.done_tds e ys r.1 (rev-At d.host.tds e xs [] h.at_ed tt)) part
        h.returnable (subst (λ (eds : Eds). InUse (eds e)) (sym un.0) h.in_use))

undisturbed :
    (fuel : ℕ) (xs : List ℕ) (e u : ℕ) (d : Driver)
    → length xs < fuel
    → DoneFor e u xs d
    → Undisturbed (done_state d) (dl_reverse_done_list fuel (done_state d))
unfolding dl_reverse_done_list
undisturbed fuel xs e u d n h =
    reverse_loop-Undisturbed fuel (done_state d).done_head 0 xs
      (record (done_state d) { done_head = 0 }) n h.chain h.not_null h.no_errors

write_back-AllReturned :
    (complete : ℕ → Driver → Driver) (on_return : ℕ → Driver → Bool) (fuel : ℕ) (toggled : Bool)
    (e u : ℕ) (xs : List ℕ) (d : Driver)
    → Quiet complete
    → HookReturns on_return
    → length xs < fuel
    → DoneFor e u xs d
    → AllReturned e u d (write_back complete on_return fuel toggled d)
unfolding write_back
write_back-AllReturned complete on_return fuel toggled e u xs d quiet hook n h =
    finish_reversed-AllReturned complete on_return fuel toggled e u xs d
      (dl_reverse_done_list fuel (done_state d)) quiet hook n h
      (dl_reverse_done_list-Reverses fuel xs (done_state d) n h.chain h.not_null h.distinct)
      (undisturbed fuel xs e u d n h)

no_frame :
    (complete : ℕ → Driver → Driver) (on_return : ℕ → Driver → Bool) (fuel e u : ℕ) (sof : Bool)
    (d : Driver) (o : Option Driver)
    → sof ≡ false
    → AllReturned e u d o
    → AllReturned e u d (then_frame complete on_return fuel sof o)
no_frame complete on_return fuel e u sof d none off a = a
no_frame complete on_return fuel e u sof d (some d') off a =
    if_both (AllReturned e u d) sof _ _ (λ on. absurd (false≢true (sym off ∙ on))) (λ _. a)

-- At an interrupt with a done list that the controller has handed over (its lowest bit is 0), which
-- holds, the last first, just the descriptors without errors that a control or bulk urb has left,
-- where the urb may be returned, its endpoint is in use, the completion handler leaves the driver
-- as it is and SideDumper_OnReturn comes back whenever it is called: with fuel for more rounds than
-- the list is long, and unless a new frame is to be handled too, `hc_interrupt` comes to an end,
-- the private part of the urb is gone, the use of the device was given back once, and the endpoint
-- is in use still.
pub hc_interrupt-AllReturned :
    (complete : ℕ → Driver → Driver) (on_return : ℕ → Driver → Bool) (fuel : ℕ) (toggled : Bool)
    (ints : Interrupts) (e u : ℕ) (xs : List ℕ) (d : Driver)
    → Quiet complete
    → HookReturns on_return
    → length xs < fuel
    → ints.start_of_frame ≡ false
    → d.hcca_done_head ≢ 0
    → d.hcca_done_head % 2 ≡ 0
    → DoneFor e u xs d
    → AllReturned e u d (hc_interrupt complete on_return fuel toggled ints d)
unfolding hc_interrupt
hc_interrupt-AllReturned complete on_return fuel toggled ints e u xs d quiet hook n frame some_list
      ready h =
    let d' = set_host (record d.host { disabled = ints.unrecoverable || d.host.disabled }) d in
    let handed_over : not (d.hcca_done_head == 0) && (d.hcca_done_head % 2 == 0) ≡ true =
      ground (arith, some_list, ready) in
    let same : DoneFor e u xs d' = record {
      some_left = h.some_left;
      chain = h.chain;
      not_null = h.not_null;
      distinct = h.distinct;
      no_errors = h.no_errors;
      of_urb = h.of_urb;
      at_ed = h.at_ed;
      part = h.part;
      returnable = h.returnable;
      in_use = h.in_use;
    } in
    no_frame complete on_return fuel e u ints.start_of_frame d _ frame (
      if_both (AllReturned e u d)
        ((not (d.hcca_done_head == 0) && (d.hcca_done_head % 2 == 0)) || ints.writeback) _ _
        (λ _. write_back-AllReturned complete on_return fuel toggled e u xs d' quiet hook n same)
        (λ no_list. absurd (ground (arith, no_list, handed_over))))
