-- ===== src/Ohci/Done/Returned.antt =====
-- One descriptor of the done list in portable-ohci-core.c: `sohci_return_urb` and the count of `dl_done_list`.
use mathlib.Core.Path.{subst}
use mathlib.Core.Bool.{false≢true}
use ps2_side_dumper.Base.{
  if_both, ℕ, ◌+◌, ◌-◌, ap, ◌≡◌, refl, sym, ◌∙◌, inl, inr, Bool, true, false, not, ◌&&◌, Option,
  none, some, List, [], ◌∷◌, arith, ◌==◌, if◌then◌else◌, length,
}
use ps2_side_dumper.Ohci.Endpoints.{Ed}
use ps2_side_dumper.Ohci.Endpoints.Run.{Listed}
use ps2_side_dumper.Ohci.Queue.{TdCell, Priv}
use ps2_side_dumper.Ohci.Submit.{cc_to_error, Host, UrbState, urb_rm_priv, is_new}
use ps2_side_dumper.Ohci.Done.{get_error, dl_transfer_length}
use ps2_side_dumper.Ohci.Done.Del.{Driver, set_urb}
use ps2_side_dumper.Ohci.Done.Removed.{Quiet, HookReturns, some_case}
use ps2_side_dumper.Ohci.Done.Return.{
  code_of, copy_back, drop_urb, return_kind, sohci_return_urb, end_urb, done_td,
}

-- An urb that is given back: the queues and lists are not touched.
abbrev GivenBack : ℕ → Driver → Option Driver → Type 0
GivenBack u d none = ⊥
GivenBack u d (some d') =
    (d'.host.tds ≡ d.host.tds)
    × (d'.host.lists ≡ d.host.lists)
    × (d'.host.uses ≡ d.host.uses - 1)
    × ((d'.urbs u).hcpriv ≡ none)
    × ((d'.urbs u).has_complete ≡ (d.urbs u).has_complete)
    × ((d'.urbs u).pipe ≡ (d.urbs u).pipe)

-- `urb_rm_priv` changes the allocator and the private part.
abbrev Stripped : UrbState → Host → UrbState → Host → Type 0
Stripped x h x' h' =
    (h'.tds ≡ h.tds)
    × (h'.lists ≡ h.lists)
    × (h'.uses ≡ h.uses)
    × (x'.hcpriv ≡ none)
    × (x'.has_complete ≡ x.has_complete)
    × (x'.pipe ≡ x.pipe)

urb_rm_priv-Stripped :
    (x : UrbState) (h : Host) → Stripped x h (urb_rm_priv x h).0 (urb_rm_priv x h).1
unfolding urb_rm_priv
urb_rm_priv-Stripped x h = go x.hcpriv refl
  where
    go : (o : Option Priv) → x.hcpriv ≡ o → Stripped x h (urb_rm_priv x h).0 (urb_rm_priv x h).1
    go none e = rw (e, urb_rm_priv) (refl, refl, refl, e, refl, refl)
    go (some priv) e = rw (e, urb_rm_priv) (refl, refl, refl, refl, refl, refl)

drop_urb-GivenBack : (u : ℕ) (d : Driver) → GivenBack u d (some (drop_urb u d))
drop_urb-GivenBack u d =
    let self : (u == u) ≡ true = ground arith in
    let r = urb_rm_priv-Stripped (d.urbs u) d.host in
    (r.0, r.1, ap (λ (n : ℕ). n - 1) r.2, rw self r.3, rw self r.4, rw self r.5)

return_kind-GivenBack :
    (complete : ℕ → Driver → Driver) (on_return : ℕ → Driver → Bool) (fuel : ℕ) (toggled : Bool)
    (u : ℕ) (d : Driver)
    → Quiet complete
    → HookReturns on_return
    → Listed (d.urbs u).pipe.kind
    → GivenBack u d (return_kind complete on_return fuel toggled u d)
return_kind-GivenBack complete on_return fuel toggled u d quiet hook (inl k) =
    rw (k, return_kind)
      (subst (λ x. GivenBack u d (some x)) (sym (quiet u (drop_urb u d))) (drop_urb-GivenBack u d))
return_kind-GivenBack complete on_return fuel toggled u d quiet hook (inr k) =
    rw (k, return_kind)
      (subst (λ x. GivenBack u d (some x)) (sym (quiet u (drop_urb u d))) (drop_urb-GivenBack u d))

dl-keeps :
    (c : TdCell) (priv : Priv) (u : UrbState)
    → ((dl_transfer_length c priv u).has_complete ≡ u.has_complete)
      × ((dl_transfer_length c priv u).pipe ≡ u.pipe)
unfolding dl_transfer_length
dl-keeps c priv u = (ground arith, ground arith)

pub sohci_return_urb-GivenBack :
    (complete : ℕ → Driver → Driver) (on_return : ℕ → Driver → Bool) (fuel : ℕ) (toggled : Bool)
    (u : ℕ) (priv : Priv) (d : Driver)
    → Quiet complete
    → HookReturns on_return
    → (d.urbs u).has_complete ≡ true
    → (d.urbs u).hcpriv ≡ some priv
    → Listed (d.urbs u).pipe.kind
    → GivenBack u d (sohci_return_urb complete on_return fuel toggled u d)
unfolding sohci_return_urb
sohci_return_urb-GivenBack complete on_return fuel toggled u priv d quiet hook c e l =
    if_both (GivenBack u d) (not (d.urbs u).has_complete) _ _ (λ missing. drop_urb-GivenBack u d)
      (λ there. some_case (GivenBack u d) (d.urbs u).hcpriv priv _ (some d) e (
        if_both (GivenBack u d) (on_return u (copy_back u priv d)) _ _
          (λ back.
            return_kind-GivenBack complete on_return fuel toggled u (copy_back u priv d) quiet hook
              l)
          (λ lost. absurd (false≢true (sym lost ∙ hook u (copy_back u priv d))))))

-- The private part of an urb of which these descriptors are still to be done
abbrev pub Parts : Option Priv → List ℕ → Type 0
Parts none [] = Unit
Parts none (x ∷ xs) = ⊥
Parts (some priv) [] = ⊥
Parts (some priv) (x ∷ xs) = (priv.deleted ≡ false) × (priv.td_cnt + length (x ∷ xs) ≡ priv.length_)

abbrev pub uses_after : List ℕ → ℕ → ℕ
uses_after [] n = n - 1
uses_after (x ∷ xs) n = n

-- The urb may be returned.
abbrev pub Returnable : UrbState → Type 0
Returnable x = (x.has_complete ≡ true) × Listed x.pipe.kind

-- The endpoint is not being deleted.
abbrev pub InUse : Ed → Type 0
InUse ed = (ed.state.del ≡ false) × (is_new ed.state ≡ false) × Listed ed.kind

abbrev pub Serviced : ℕ → Driver → List ℕ → Option Driver → Type 0
Serviced u d xs none = ⊥
Serviced u d xs (some d') =
    (d'.host.tds ≡ d.host.tds)
    × (d'.host.lists ≡ d.host.lists)
    × (d'.host.uses ≡ uses_after xs d.host.uses)
    × Parts (d'.urbs u).hcpriv xs
    × Returnable (d'.urbs u)

Parts-none : (o : Option Priv) → o ≡ none → Parts o []
Parts-none o e = subst (λ o'. Parts o' []) (sym e) tt

GivenBack-Serviced :
    (u : ℕ) (d d' : Driver) (o : Option Driver)
    → d'.host ≡ d.host
    → Returnable (d'.urbs u)
    → GivenBack u d' o
    → Serviced u d [] o
GivenBack-Serviced u d d' none same r g = g
GivenBack-Serviced u d d' (some d'') same r g = (
  g.0 ∙ ap (λ (h : Host). h.tds) same,
  g.1 ∙ ap (λ (h : Host). h.lists) same,
  g.2 ∙ ap (λ (h : Host). h.uses - 1) same,
  Parts-none (d''.urbs u).hcpriv g.3,
  (g.4 ∙ r.0, subst (λ p. Listed p.kind) (sym g.5) r.1),
)

end_urb-Serviced :
    (complete : ℕ → Driver → Driver) (on_return : ℕ → Driver → Bool) (fuel : ℕ) (toggled : Bool)
    (c : TdCell) (priv : Priv) (d : Driver)
    → Quiet complete
    → HookReturns on_return
    → Returnable (d.urbs c.urb)
    → InUse (d.host.lists.eds c.ed)
    → priv.deleted ≡ false
    → (d.urbs c.urb).hcpriv ≡ some priv
    → Serviced c.urb d [] (end_urb complete on_return fuel toggled c priv d)
end_urb-Serviced complete on_return fuel toggled c priv d quiet hook r on del e =
    let self : (c.urb == c.urb) ≡ true = ground arith in
    let state = (d.host.lists.eds c.ed).state in
    let x = record (d.urbs c.urb) {
      status = get_error cc_to_error (code_of complete on_return c (d.urbs c.urb));
    } in
    let d' = set_urb c.urb x d in
    if_both (Serviced c.urb d []) (not priv.deleted && (not state.del && not (is_new state))) _ _
      (λ yes.
        GivenBack-Serviced c.urb d d' (sohci_return_urb complete on_return fuel toggled c.urb d')
          refl (rw self r)
          (sohci_return_urb-GivenBack complete on_return fuel toggled c.urb priv d' quiet hook
            (rw self r.0) (rw self e) (rw self r.1)))
      (λ not_so. absurd (ground (arith, not_so, del, on.0, on.1)))

pub done_td-Serviced :
    (complete : ℕ → Driver → Driver) (on_return : ℕ → Driver → Bool) (fuel : ℕ) (toggled : Bool)
    (x : ℕ) (xs : List ℕ) (c : TdCell) (priv : Priv) (d : Driver)
    → Quiet complete
    → HookReturns on_return
    → Returnable (d.urbs c.urb)
    → InUse (d.host.lists.eds c.ed)
    → priv.deleted ≡ false
    → priv.td_cnt + length (x ∷ xs) ≡ priv.length_
    → Serviced c.urb d xs (done_td complete on_return fuel toggled c priv d)
done_td-Serviced complete on_return fuel toggled x [] c priv d quiet hook r on del n =
    let self : (c.urb == c.urb) ≡ true = ground arith in
    let last : ((priv.td_cnt + 1) == priv.length_) ≡ true = ground (arith, n) in
    let counted = record priv { td_cnt = priv.td_cnt + 1 } in
    let v = dl_transfer_length c priv (d.urbs c.urb) in
    let keep = dl-keeps c priv (d.urbs c.urb) in
    let d' =
      set_urb c.urb (record v { hcpriv = some counted })
        (record d { halts = if c.code == 4 then v.pipe ∷ d.halts else d.halts }) in
    rw last (
      end_urb-Serviced complete on_return fuel toggled c counted d' quiet hook
        (rw self (keep.0 ∙ r.0, subst (λ p. Listed p.kind) (sym keep.1) r.1)) on del (rw self refl))
done_td-Serviced complete on_return fuel toggled x (y ∷ ys) c priv d quiet hook r on del n =
    let self : (c.urb == c.urb) ≡ true = ground arith in
    let more : ((priv.td_cnt + 1) == priv.length_) ≡ false = ground (arith, n) in
    let keep = dl-keeps c priv (d.urbs c.urb) in
    rw more (
      refl,
      refl,
      refl,
      rw (self, Parts) (del, omega (arith, n)),
      rw self (keep.0 ∙ r.0, subst (λ p. Listed p.kind) (sym keep.1) r.1),
    )
