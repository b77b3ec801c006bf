-- ===== src/Ohci/Done/Removed.antt =====
-- What `dl_del_list` of portable-ohci-core.c does with the queue of an urb that is unlinked.
use mathlib.Core.Path.{subst}
use mathlib.Core.Bool.{false≢true}
use ps2_side_dumper.Base.{
  if_both, ℕ, zero, suc, ◌+◌, ◌-◌, ◌<◌, ap, ◌≡◌, refl, sym, ◌∙◌, inl, inr, Bool, true, false,
  Option, none, some, List, [], ◌∷◌, arith, ◌==◌, if◌then◌else◌, Option-cases, length, ltb,
}
use ps2_side_dumper.Ohci.Endpoints.{Lists}
use ps2_side_dumper.Ohci.Endpoints.Segment.{Fresh}
use ps2_side_dumper.Ohci.Queue.{TdCell, Tds, Priv}
use ps2_side_dumper.Ohci.Queue.Chained.{Links}
use ps2_side_dumper.Ohci.Submit.{UrbState, urb_rm_priv}
use ps2_side_dumper.Ohci.Done.{dl_transfer_length}
use ps2_side_dumper.Ohci.Done.Del.{
  Driver, head_of, write_link, set_urb, set_host, count_td, tell, remove_td, removes, del_tds,
}

-- The private part of the urb that is unlinked, while these descriptors of it are left
abbrev pub Left : Option Priv → List ℕ → Type 0
Left none [] = Unit
Left none (x ∷ xs) = ⊥
Left (some priv) [] = ⊥
Left (some priv) (x ∷ xs) = (priv.deleted ≡ true) × (priv.td_cnt + length (x ∷ xs) ≡ priv.length_)

-- The descriptors are the urb's.
abbrev pub Of : Tds → ℕ → List ℕ → Type 0
Of tds u [] = Unit
Of tds u (x ∷ xs) = ((tds x).urb ≡ u) × Of tds u xs

dl_transfer_length-async :
    (c : TdCell) (priv : Priv) (u : UrbState)
    → (dl_transfer_length c priv u).async_unlink ≡ u.async_unlink
unfolding dl_transfer_length
dl_transfer_length-async c priv u = ground arith

-- One descriptor is counted: the queue is not touched.
abbrev Counted : ℕ → Driver → List ℕ → Driver → Type 0
Counted u d xs d' =
    (d'.host.tds ≡ d.host.tds)
    × (d'.host.lists ≡ d.host.lists)
    × (d'.host.uses ≡ d.host.uses)
    × Left (d'.urbs u).hcpriv xs
    × ((d'.urbs u).async_unlink ≡ (d.urbs u).async_unlink)

count_td-Counted :
    (priv : Priv) (u x : ℕ) (xs : List ℕ) (d : Driver)
    → priv.deleted ≡ true
    → priv.td_cnt + length (x ∷ xs) ≡ priv.length_
    → Counted u d xs (count_td priv u d)
unfolding urb_rm_priv
count_td-Counted priv u x [] d del n =
    let last : ((priv.td_cnt + 1) == priv.length_) ≡ true = ground (arith, n) in
    let self : (u == u) ≡ true = ground arith in
    rw last (refl, refl, refl, rw (self, Left) tt, rw self refl)
count_td-Counted priv u x (y ∷ ys) d del n =
    let more : ((priv.td_cnt + 1) == priv.length_) ≡ false = ground (arith, n) in
    let self : (u == u) ≡ true = ground arith in
    rw more (refl, refl, refl, rw (self, Left) (del, omega (arith, n)), rw self refl)

-- The completion handler leaves the driver as it is.
abbrev pub Quiet : (ℕ → Driver → Driver) → Type 0
Quiet complete = (u : ℕ) (d : Driver) → complete u d ≡ d

-- `SideDumper_OnReturn` comes back, whatever the urb.
abbrev pub HookReturns : (ℕ → Driver → Bool) → Type 0
HookReturns on_return = (u : ℕ) (d : Driver) → on_return u d ≡ true

-- The endpoint's queue begins at `head`, and the use was given back so many times.
abbrev Told : ℕ → ℕ → ℕ → ℕ → Driver → List ℕ → Driver → Type 0
Told e u head rm d xs d' =
    (d'.host.tds ≡ d.host.tds)
    × ((d'.host.lists.eds e).hw_head ≡ head)
    × (d'.host.uses ≡ d.host.uses - 1)
    × Left (d'.urbs u).hcpriv xs
    × ((d'.urbs u).async_unlink ≡ true)
    × ((d'.host.lists.eds e).rm_next ≡ rm)

tell-Told :
    (complete : ℕ → Driver → Driver) (e u head rm : ℕ) (xs : List ℕ) (d d' : Driver)
    → Quiet complete
    → (d.urbs u).async_unlink ≡ true
    → (d.host.lists.eds e).hw_head ≡ head
    → (d.host.lists.eds e).rm_next ≡ rm
    → Counted u d xs d'
    → Told e u head rm d xs (tell complete u d')
tell-Told complete e u head rm xs d d' quiet async front after c =
    let self : (u == u) ≡ true = ground arith in
    if_both (Told e u head rm d xs) (d'.urbs u).async_unlink _ _
      (λ on. subst (Told e u head rm d xs) (sym (quiet u _)) (
        c.0,
        ap (λ (l : Lists). (l.eds e).hw_head) c.1 ∙ front,
        ap (λ (n : ℕ). n - 1) c.2,
        rw (self, Left) c.3,
        rw self (c.4 ∙ async),
        ap (λ (l : Lists). (l.eds e).rm_next) c.1 ∙ after,
      ))
      (λ off. absurd (false≢true (sym off ∙ (c.4 ∙ async))))

remove_td-Told :
    (complete : ℕ → Driver → Driver) (e x : ℕ) (xs : List ℕ) (c : TdCell) (priv : Priv) (d : Driver)
    → Quiet complete
    → (d.urbs c.urb).async_unlink ≡ true
    → priv.deleted ≡ true
    → priv.td_cnt + length (x ∷ xs) ≡ priv.length_
    → Told e c.urb c.hw_next_td
        (d.host.lists.eds e).rm_next
        d
        xs
        (remove_td complete c priv (head_of e) d)
remove_td-Told complete e x xs c priv d quiet async del n =
    let moved = if ltb c.code 14 then dl_transfer_length c priv (d.urbs c.urb) else d.urbs c.urb in
    let d0 = set_host (write_link (head_of e) c.hw_next_td d.host) (set_urb c.urb moved d) in
    let self : (c.urb == c.urb) ≡ true = ground arith in
    let same : moved.async_unlink ≡ true =
      if_both (λ (v : UrbState). v.async_unlink ≡ true) (ltb c.code 14) _ _
        (λ done. dl_transfer_length-async c priv (d.urbs c.urb) ∙ async) (λ not_yet. async) in
    let at : (d0.urbs c.urb).async_unlink ≡ true = rw self same in
    let front : (d0.host.lists.eds e).hw_head ≡ c.hw_next_td = ground arith in
    let after : (d0.host.lists.eds e).rm_next ≡ (d.host.lists.eds e).rm_next = ground arith in
    tell-Told complete e c.urb c.hw_next_td (d.host.lists.eds e).rm_next xs d0
      (count_td priv c.urb d0) quiet at front after (count_td-Counted priv c.urb x xs d0 del n)

-- What the loop leaves where the queue was the urb's.
abbrev pub Emptied : ℕ → ℕ → ℕ → ℕ → Driver → Option Driver → Type 0
Emptied e u tail n d none = ⊥
Emptied e u tail n d (some d') =
    ((d'.host.lists.eds e).hw_head ≡ tail)
    × ((d'.urbs u).hcpriv ≡ none)
    × (d'.host.uses ≡ d.host.uses - n)
    × (d'.host.tds ≡ d.host.tds)
    × ((d'.host.lists.eds e).rm_next ≡ (d.host.lists.eds e).rm_next)

Left-nil : (o : Option Priv) → Left o [] → o ≡ none
Left-nil none l = refl
Left-nil (some priv) l = absurd l

Emptied-step :
    (e u tail n : ℕ) (d d' : Driver) (o : Option Driver)
    → d'.host.tds ≡ d.host.tds
    → d'.host.uses ≡ d.host.uses - 1
    → (d'.host.lists.eds e).rm_next ≡ (d.host.lists.eds e).rm_next
    → Emptied e u tail n d' o
    → Emptied e u tail (suc n) d o
Emptied-step e u tail n d d' none same used after r = absurd r
Emptied-step e u tail n d d' (some d'') same used after r =
    (r.0, r.1, omega (arith, r.2, used), r.3 ∙ same, r.4 ∙ after)

pub some_case :
    {A B : Type 0} (P : B → Type 0) (o : Option A) (a : A) (f : A → B) (z : B)
    → o ≡ some a
    → P (f a)
    → P (elim o [ none ↦ z | some x ↦ f x ])
some_case P o a f z e p = subst (λ o'. P (elim o' [ none ↦ z | some x ↦ f x ])) (sym e) p

-- For an endpoint of which the queue leads from its head through the descriptors `xs` to its tail, all
-- of one urb that is unlinked asynchronously and of which just these are still to be counted, and a
-- completion handler that leaves the driver as it is, the loop of `dl_del_list` comes to an end, with
-- fuel for more rounds than `xs` has elements: the queue is empty, the private part of the urb is gone,
-- and the use of the device was given back once for each descriptor; the link of the endpoint to the next
-- one to be removed is as before.
pub del_tds-Emptied :
    (complete : ℕ → Driver → Driver) (fuel e u t tail : ℕ) (xs : List ℕ) (d : Driver)
    → Quiet complete
    → length xs < fuel
    → (d.host.lists.eds e).hw_head ≡ t
    → Links d.host.tds t xs tail
    → Fresh tail xs
    → Of d.host.tds u xs
    → Left (d.urbs u).hcpriv xs
    → (d.urbs u).async_unlink ≡ true
    → Emptied e u tail (length xs) d (del_tds complete fuel e t (head_of e) tail d)
unfolding del_tds
del_tds-Emptied complete zero e u t tail xs d quiet n head l f own left async =
    absurd (omega (arith, n))
del_tds-Emptied complete (suc fuel) e u t tail [] d quiet n head l f own left async =
    let end : (t == tail) ≡ true = ground (arith, l) in
    rw end (head ∙ l, Left-nil (d.urbs u).hcpriv left, omega arith, refl, refl)
del_tds-Emptied complete (suc fuel) e u t tail (x ∷ xs) d quiet n head l f own left async =
    let c = d.host.tds t in
    let cu : c.urb ≡ u = ap (λ (y : ℕ). (d.host.tds y).urb) l.0 ∙ own.0 in
    let next : c.hw_next_td ≡ (d.host.tds x).hw_next_td =
      ap (λ (y : ℕ). (d.host.tds y).hw_next_td) l.0 in
    let left' = subst (λ (v : ℕ). Left (d.urbs v).hcpriv (x ∷ xs)) (sym cu) left in
    let async' = subst (λ (v : ℕ). (d.urbs v).async_unlink ≡ true) (sym cu) async in
    let on : (t == tail) ≡ false = ground (arith, l.0, f.0) in
    let aim = Emptied e u tail (suc (length xs)) d in
    elim (Option-cases (d.urbs c.urb).hcpriv) [
      | inl gone ↦ absurd (subst (λ (o : Option Priv). Left o (x ∷ xs)) gone left')
      | inr (priv, is) ↦
          let part = subst (λ (o : Option Priv). Left o (x ∷ xs)) is left' in
          let told = remove_td-Told complete e x xs c priv d quiet async' part.0 part.1 in
          let d' = remove_td complete c priv (head_of e) d in
          let ahead = subst (λ (y : ℕ). Links d.host.tds y xs tail) (sym next) l.1 in
          let ih =
            del_tds-Emptied complete fuel e c.urb c.hw_next_td tail xs d' quiet (omega (arith, n))
              told.1 (subst (λ (tds : Tds). Links tds c.hw_next_td xs tail) (sym told.0) ahead) f.1
              (subst (λ (tds : Tds). Of tds c.urb xs) (sym told.0)
                (subst (λ (v : ℕ). Of d.host.tds v xs) (sym cu) own.1))
              told.3 told.4 in
          let o = del_tds complete fuel e c.hw_next_td (head_of e) tail d' in
          let r =
            subst (λ (v : ℕ). Emptied e v tail (suc (length xs)) d o) cu
              (Emptied-step e c.urb tail (length xs) d d' o told.0 told.2 told.5 ih) in
          if_both aim (t == tail) _ _ (λ over. absurd (false≢true (sym on ∙ over)))
            (λ _. some_case aim (d.urbs c.urb).hcpriv priv _ none is (
              if_both aim (removes priv (d.host.lists.eds e)) _ _ (λ yes. r)
                (λ not_so. absurd (false≢true (sym not_so ∙ ground (arith, part.0))))))
    ]
