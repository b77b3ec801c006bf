-- ===== src/Ohci/Done/Finished.antt =====
-- `dl_done_list` of portable-ohci-core.c returns an urb when its last descriptor is done.
use mathlib.Core.Path.{subst}
use mathlib.Core.Bool.{false≢true}
use ps2_side_dumper.Base.{
  if_both, ℕ, zero, suc, ◌-◌, ◌<◌, ap, ◌≡◌, refl, sym, ◌∙◌, inl, inr, Bool, true, false, not, ◌&&◌,
  Option, none, some, List, [], ◌∷◌, arith, ◌==◌, Option-cases, length,
}
use ps2_side_dumper.Ohci.Endpoints.{Lists, ep_unlink, remove_ed}
use ps2_side_dumper.Ohci.Endpoints.Segment.{Fresh}
use ps2_side_dumper.Ohci.Endpoints.Run.{Listed}
use ps2_side_dumper.Ohci.Queue.{Tds, Priv}
use ps2_side_dumper.Ohci.Submit.{is_new, is_oper}
use ps2_side_dumper.Ohci.Done.Reversed.{DlLinks}
use ps2_side_dumper.Ohci.Done.Del.{Driver}
use ps2_side_dumper.Ohci.Done.Removed.{Of, Quiet, HookReturns, some_case}
use ps2_side_dumper.Ohci.Done.Returned.{
  Serviced, done_td-Serviced, Parts, uses_after, Returnable, InUse,
}
use ps2_side_dumper.Ohci.Done.Return.{done_td, put_lists, rest_ed, go_on, dl_done_list}

-- What the rounds need of the urb and its endpoint
abbrev Round : ℕ → ℕ → Driver → List ℕ → Option Driver → Type 0
Round e u d xs none = ⊥
Round e u d xs (some d') =
    (d'.host.tds ≡ d.host.tds)
    × (d'.host.uses ≡ uses_after xs d.host.uses)
    × Parts (d'.urbs u).hcpriv xs
    × Returnable (d'.urbs u)
    × InUse (d'.host.lists.eds e)

-- After `ep_unlink` the endpoint is still there, in the state ED_UNLINK.
abbrev Rested : ℕ → Option Lists → Type 0
Rested e none = ⊥
Rested e (some lists) = InUse (lists.eds e)

ep_unlink-Rested : (fuel e : ℕ) (s : Lists) → Listed (s.eds e).kind → Rested e (ep_unlink fuel e s)
unfolding ep_unlink remove_ed
ep_unlink-Rested fuel e s (inl k) =
    rw (k, Rested) (ground arith, ground arith, inl (ground (arith, k)))
ep_unlink-Rested fuel e s (inr k) =
    rw (k, Rested) (ground arith, ground arith, inr (ground (arith, k)))

put_lists-Round :
    (complete : ℕ → Driver → Driver) (on_return : ℕ → Driver → Bool) (e u : ℕ) (d d' : Driver)
    (xs : List ℕ) (o : Option Lists)
    → Rested e o
    → Serviced u d xs (some d')
    → Round e u d xs (put_lists complete on_return d' o)
put_lists-Round complete on_return e u d d' xs none r s = r
put_lists-Round complete on_return e u d d' xs (some lists) r s = (s.0, s.2, s.3, s.4, r)

rest_ed-Round :
    (complete : ℕ → Driver → Driver) (on_return : ℕ → Driver → Bool) (fuel e u : ℕ) (d : Driver)
    (xs : List ℕ) (o : Option Driver)
    → InUse (d.host.lists.eds e)
    → Serviced u d xs o
    → Round e u d xs (rest_ed complete on_return fuel e o)
rest_ed-Round complete on_return fuel e u d xs none on s = s
rest_ed-Round complete on_return fuel e u d xs (some d') on s =
    let ed = d'.host.lists.eds e in
    let still = subst (λ (l : Lists). InUse (l.eds e)) (sym s.1) on in
    if_both (Round e u d xs)
      (not (is_new ed.state) && ((ed.hw_head == ed.hw_tail) && is_oper ed.state)) _ _
      (λ idle.
        put_lists-Round complete on_return e u d d' xs (ep_unlink fuel e d'.host.lists)
          (ep_unlink-Rested fuel e d'.host.lists still.2) s)
      (λ busy. (s.0, s.2, s.3, s.4, still))

-- The descriptors are for this endpoint.
abbrev pub At : Tds → ℕ → List ℕ → Type 0
At tds e [] = Unit
At tds e (x ∷ xs) = ((tds x).ed ≡ e) × At tds e xs

abbrev pub uses_end : List ℕ → ℕ → ℕ
uses_end [] n = n
uses_end (x ∷ xs) n = n - 1

-- All of the urb is done.
abbrev pub Finished : ℕ → ℕ → List ℕ → Driver → Option Driver → Type 0
Finished e u xs d none = ⊥
Finished e u xs d (some d') =
    ((d'.urbs u).hcpriv ≡ none)
    × (d'.host.uses ≡ uses_end xs d.host.uses)
    × (d'.host.tds ≡ d.host.tds)
    × InUse (d'.host.lists.eds e)

go_on-Finished :
    (complete : ℕ → Driver → Driver) (on_return : ℕ → Driver → Bool) (e u x : ℕ) (xs : List ℕ)
    (d : Driver) (f : Driver → Option Driver) (o : Option Driver)
    → Round e u d xs o
    → ((d1 : Driver) → Round e u d xs (some d1) → Finished e u xs d1 (f d1))
    → Finished e u (x ∷ xs) d (go_on complete on_return f o)
go_on-Finished complete on_return e u x xs d f none r k = r
go_on-Finished complete on_return e u x xs d f (some d1) r k = join xs (f d1) r.0 r.1 (k d1 r)
  where
    join :
        (xs : List ℕ) (o : Option Driver)
        → d1.host.tds ≡ d.host.tds
        → d1.host.uses ≡ uses_after xs d.host.uses
        → Finished e u xs d1 o
        → Finished e u (x ∷ xs) d o
    join xs none same used g = g
    join [] (some d2) same used g = (g.0, g.1 ∙ used, g.2 ∙ same, g.3)
    join (y ∷ ys) (some d2) same used g = (g.0, omega (arith, g.1, used), g.2 ∙ same, g.3)

Parts-nil : (o : Option Priv) → Parts o [] → o ≡ none
Parts-nil none p = refl
Parts-nil (some priv) p = absurd p

-- For a done list that `next_dl_td` leads through from `t` to NULL, which holds just the descriptors of
-- one control or bulk urb that are still to be done, where the urb has a completion handler and is not
-- unlinked, its endpoint is in use, the handler leaves the driver as it is, and SideDumper_OnReturn
-- comes back whenever it is called: with fuel for more
-- rounds than the list is long `dl_done_list` comes to an end, the private part of the urb is gone, the
-- use of the device was given back once, whatever the number of descriptors, and the endpoint is in
-- use still.
pub dl_done_list-Finished :
    (complete : ℕ → Driver → Driver) (on_return : ℕ → Driver → Bool) (fuel : ℕ) (toggled : Bool)
    (e u t : ℕ) (xs : List ℕ) (d : Driver)
    → Quiet complete
    → HookReturns on_return
    → length xs < fuel
    → DlLinks d.host.tds t xs
    → Fresh 0 xs
    → Of d.host.tds u xs
    → At d.host.tds e xs
    → Parts (d.urbs u).hcpriv xs
    → Returnable (d.urbs u)
    → InUse (d.host.lists.eds e)
    → Finished e u xs d (dl_done_list complete on_return fuel toggled t d)
unfolding dl_done_list
dl_done_list-Finished complete on_return zero toggled e u t xs d quiet hook n l z own at parts r
      on =
    absurd (omega (arith, n))
dl_done_list-Finished complete on_return (suc fuel) toggled e u t [] d quiet hook n l z own at parts
      r on =
    let end : (t == 0) ≡ true = ground (arith, l) in
    rw end (Parts-nil (d.urbs u).hcpriv parts, refl, refl, on)
dl_done_list-Finished complete on_return (suc fuel) toggled e u t (x ∷ xs) d quiet hook n l z own at
      parts r on =
    let c = d.host.tds t in
    let tds = d.host.tds in
    let cu : c.urb ≡ u = ap (λ (y : ℕ). (tds y).urb) l.0 ∙ own.0 in
    let ce : c.ed ≡ e = ap (λ (y : ℕ). (tds y).ed) l.0 ∙ at.0 in
    let next : c.next_dl_td ≡ (tds x).next_dl_td = ap (λ (y : ℕ). (tds y).next_dl_td) l.0 in
    let parts' = subst (λ (v : ℕ). Parts (d.urbs v).hcpriv (x ∷ xs)) (sym cu) parts in
    let r' = subst (λ (v : ℕ). Returnable (d.urbs v)) (sym cu) r in
    let on' = subst (λ (v : ℕ). InUse (d.host.lists.eds v)) (sym ce) on in
    let own' = subst (λ (v : ℕ). Of tds v xs) (sym cu) own.1 in
    let at' = subst (λ (v : ℕ). At tds v xs) (sym ce) at.1 in
    let ahead = subst (λ (y : ℕ). DlLinks tds y xs) (sym next) l.1 in
    let more : (t == 0) ≡ false = ground (arith, l.0, z.0) in
    let aim = Finished e u (x ∷ xs) d in
    let rest = λ (d1 : Driver). dl_done_list complete on_return fuel toggled c.next_dl_td d1 in
    elim (Option-cases (d.urbs c.urb).hcpriv) [
      | inl gone ↦ absurd (subst (λ (o : Option Priv). Parts o (x ∷ xs)) gone parts')
      | inr (priv, is) ↦
          let part = subst (λ (o : Option Priv). Parts o (x ∷ xs)) is parts' in
          let o =
            rest_ed complete on_return (suc fuel) c.ed
              (done_td complete on_return (suc fuel) toggled c priv d) in
          let round =
            rest_ed-Round complete on_return (suc fuel) c.ed c.urb d xs
              (done_td complete on_return (suc fuel) toggled c priv d) on'
              (done_td-Serviced complete on_return (suc fuel) toggled x xs c priv d quiet hook r'
                on' part.0 part.1) in
          let g = go_on-Finished complete on_return c.ed c.urb x xs d rest o round (λ d1 r1.
            dl_done_list-Finished complete on_return fuel toggled c.ed c.urb c.next_dl_td xs d1
              quiet hook (omega (arith, n))
              (subst (λ (m : Tds). DlLinks m c.next_dl_td xs) (sym r1.0) ahead) z.1
              (subst (λ (m : Tds). Of m c.urb xs) (sym r1.0) own')
              (subst (λ (m : Tds). At m c.ed xs) (sym r1.0) at') r1.2 r1.3 r1.4) in
          if_both aim (t == 0) _ _ (λ over. absurd (false≢true (sym more ∙ over)))
            (λ _. some_case aim (d.urbs c.urb).hcpriv priv _ none is (
              subst (λ (v : ℕ). Finished v u (x ∷ xs) d (go_on complete on_return rest o)) ce
                (subst (λ (v : ℕ). Finished c.ed v (x ∷ xs) d (go_on complete on_return rest o)) cu
                  g)))
    ]
