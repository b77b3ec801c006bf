-- ===== src/Ohci/Submit/Returns.antt =====
-- When `sohci_submit_urb` of portable-ohci-core.c comes to an end.
use mathlib.Core.Path.{subst}
use mathlib.Core.Bool.{false≢true}
use ps2_side_dumper.Base.{
  if_both, ℕ, zero, suc, ◌+◌, ◌≡◌, refl, sym, ◌∙◌, inl, inr, Bool, true, false, not, ◌||◌, Option,
  none, some, List, arith, ◌==◌, if◌then◌else◌, Option-cases,
}
use ps2_side_dumper.Usb.{Pipe, Bytes}
use ps2_side_dumper.LocalMem.{Mem, GrowAnswer, alloc_local_mem, alloc_pass, prepare_pass}
use ps2_side_dumper.LocalMem.UrbCopy.{
  Extra, UrbBuffers, AllocAnswers, copy_in, transfer_bytes, prepare_transfer, prepare_setup,
  portable_prepare_urb_on_submit,
}
use ps2_side_dumper.Ohci.Transfer.{td_size}
use ps2_side_dumper.Ohci.Endpoints.{Ed, Lists, ep_link}
use ps2_side_dumper.Ohci.Endpoints.Run.{Listed}
use ps2_side_dumper.Ohci.Queue.{Priv}
use ps2_side_dumper.Ohci.Submit.{
  first_frame, reset_packets, Host, UrbState, Kernel, is_new, is_oper, deleting, ed_index, make_ed,
  end_add, ep_add_ed, new_priv, transfer_of, fill_queue, after_prepare, alloc_tds, submit_locked,
  after_tds, after_add, sohci_submit_urb,
}

abbrev pub Returns : {A : Type 0} → Option A → Type 0
Returns none = ⊥
Returns (some x) = Unit

Returns-bind :
    {A B : Type 0} (o : Option A) (f : A → Option B)
    → Returns o
    → ((x : A) → Returns (f x))
    → Returns (elim o [ none ↦ none | some x ↦ f x ])
Returns-bind none f r g = absurd r
Returns-bind (some x) f r g = g x

alloc-Returns :
    (btv : ℕ → ℕ) (g g' : GrowAnswer) (ok : Bool) (size : ℕ) (m : Mem)
    → Returns (alloc_local_mem btv true g g' ok size m)
unfolding alloc_local_mem alloc_pass prepare_pass
alloc-Returns btv g g' ok size m = ground arith

ep_link-Returns : (fuel e : ℕ) (s : Lists) → Listed (s.eds e).kind → Returns (ep_link fuel e s)
unfolding ep_link
ep_link-Returns fuel e s (inl k) = rw (k, Returns) tt
ep_link-Returns fuel e s (inr k) = rw (k, Returns) tt

-- The allocation is made in interrupt context, where memory is not grown.
abbrev pub Atomic : AllocAnswers → Type 0
Atomic k = k.irq ≡ true

Atomic-Returns :
    (btv : ℕ → ℕ) (k : AllocAnswers) (size : ℕ) (m : Mem)
    → Atomic k
    → Returns (alloc_local_mem btv k.irq k.first k.second k.new_ok size m)
Atomic-Returns btv k size m a =
    subst (λ irq. Returns (alloc_local_mem btv irq k.first k.second k.new_ok size m)) (sym a)
      (alloc-Returns btv k.first k.second k.new_ok size m)

alloc_tds-Returns :
    (btv : ℕ → ℕ) (n i : ℕ) (k : ℕ → AllocAnswers) (m : Mem)
    → ((i : ℕ) → Atomic (k i))
    → Returns (alloc_tds btv n i k m)
unfolding alloc_tds
alloc_tds-Returns btv zero i k m a = tt
alloc_tds-Returns btv (suc n) i k m a =
    Returns-bind (alloc_local_mem btv (k i).irq (k i).first (k i).second (k i).new_ok 32 m) _
      (Atomic-Returns btv (k i) 32 m (a i))
      (λ r.
        if_both Returns (r.0 == 0) _ _ (λ e. tt)
          (λ e.
            Returns-bind (alloc_tds btv n (i + 1) k r.1) _ (alloc_tds-Returns btv n (i + 1) k r.1 a)
              (λ rest. tt)))

copy_in-Returns :
    (btv : ℕ → ℕ) (k : AllocAnswers) (src n : ℕ) (m : Mem) (memory : Bytes)
    → Atomic k
    → Returns (copy_in btv k src n m memory)
unfolding copy_in
copy_in-Returns btv k src n m memory a = let r = Atomic-Returns btv k n m a in ground (arith, r)

prepare_setup-Returns :
    (btv : ℕ → ℕ) (k : AllocAnswers) (u : UrbBuffers) (m : Mem) (memory : Bytes)
    → Atomic k
    → Returns (prepare_setup btv k u m memory)
unfolding prepare_setup
prepare_setup-Returns btv k u m memory a =
    if_both Returns (u.setup_packet == 0) _ _ (λ e. tt)
      (λ e. copy_in-Returns btv k u.setup_packet 8 m memory a)

prepare_transfer-Returns :
    (btv : ℕ → ℕ) (k : AllocAnswers) (u : UrbBuffers) (m : Mem) (memory : Bytes)
    → Atomic k
    → Returns (prepare_transfer btv k u m memory)
unfolding prepare_transfer
prepare_transfer-Returns btv k u m memory a =
    if_both Returns (u.transfer_buffer_length == 0) _ _ (λ e. tt)
      (λ e. copy_in-Returns btv k u.transfer_buffer (transfer_bytes u) m memory a)

prepare-Returns :
    (btv : ℕ → ℕ) (k k' : AllocAnswers) (u : UrbBuffers) (m : Mem) (memory : Bytes)
    → Atomic k
    → Atomic k'
    → Returns (portable_prepare_urb_on_submit btv k k' u m memory)
unfolding portable_prepare_urb_on_submit
prepare-Returns btv k k' u m memory a a' =
    go (prepare_transfer btv k u m memory) refl (prepare_transfer-Returns btv k u m memory a)
  where
    go :
        (o : Option (Bool × (ℕ × (Mem × Bytes))))
        → prepare_transfer btv k u m memory ≡ o
        → Returns o
        → Returns (portable_prepare_urb_on_submit btv k k' u m memory)
    go none e r = absurd r
    go (some (false, x)) e r = rw (e, Returns, portable_prepare_urb_on_submit) tt
    go (some (true, (p, (m', memory')))) e r =
        let second = prepare_setup-Returns btv k' u m' memory' a' in
        rw (e, Returns, portable_prepare_urb_on_submit) (ground (arith, second))

-- An endpoint that `ep_add_ed` returns is in one of the two lists' kinds, and the lock is free.
abbrev AddedListed : ℕ → Option (Bool × Host) → Type 0
AddedListed e none = ⊥
AddedListed e (some (false, h)) = Unit
AddedListed e (some (true, h)) = Listed (h.lists.eds e).kind × (h.usb_ed_lock ≡ false)

abbrev MadeListed : ℕ → Option (Bool × Host) → Type 0
MadeListed e none = ⊥
MadeListed e (some (false, h)) = Unit
MadeListed e (some (true, h)) = Listed (h.lists.eds e).kind

make_ed-Listed :
    (btv : ℕ → ℕ) (k : AllocAnswers) (e : ℕ) (p : Pipe) (h : Host)
    → Atomic k
    → Listed p.kind
    → MadeListed e (make_ed btv k e p h)
unfolding make_ed
make_ed-Listed btv k e p h a l = let r = Atomic-Returns btv k 32 h.mem a in ground (arith, r, l)

end_add-Listed :
    (btv : ℕ → ℕ) (e usb_dev : ℕ) (p : Pipe) (interval load : ℕ) (o : Option (Bool × Host))
    → MadeListed e o
    → AddedListed e (end_add btv e usb_dev p interval load o)
end_add-Listed btv e usb_dev p interval load none l = l
end_add-Listed btv e usb_dev p interval load (some (false, h)) l = tt
end_add-Listed btv e usb_dev p interval load (some (true, h)) l = (ground (arith, l), refl)

-- The endpoint is new, or it is of the kind of the pipe.
abbrev pub Fitting : Pipe → Ed → Type 0
Fitting p ed = (is_new ed.state ≡ false) → ed.kind ≡ p.kind

ep_add_ed-Listed :
    (btv : ℕ → ℕ) (k : AllocAnswers) (eds_at : ℕ → ℕ) (usb_dev : ℕ) (p : Pipe) (interval load : ℕ)
    (h : Host)
    → Atomic k
    → Listed p.kind
    → Fitting p (h.lists.eds (eds_at (ed_index p)))
    → h.usb_ed_lock ≡ false
    → AddedListed (eds_at (ed_index p)) (ep_add_ed btv k eds_at usb_dev p interval load h)
unfolding ep_add_ed
ep_add_ed-Listed btv k eds_at usb_dev p interval load h a l fits free =
    let e = eds_at (ed_index p) in
    let h' : Host = record h { usb_ed_lock = true } in
    let ed = h.lists.eds e in
    if_both (AddedListed e) h.usb_ed_lock none _ (λ held. false≢true (sym free ∙ held))
      (λ _.
        if_both (AddedListed e) (deleting ed.state) _ _ (λ del. tt)
          (λ calm. end_add-Listed btv e usb_dev p interval load _ (
            if_both (MadeListed e) (is_new ed.state) _ _ (λ new. make_ed-Listed btv k e p h' a l)
              (λ old. subst Listed (sym (fits old)) l))))

fill_queue-Returns :
    (toggled : Bool) (u : UrbState) (priv : Priv) (h : Host) (o : Option Lists)
    → Returns o
    → Returns (fill_queue toggled u priv h o)
fill_queue-Returns toggled u priv h none r = absurd r
fill_queue-Returns toggled u priv h (some lists) r = tt

after_prepare-Returns :
    (fuel : ℕ) (toggled : Bool) (u : UrbState) (priv : Priv) (h : Host)
    (o : Option (Bool × (Extra × (Mem × Bytes))))
    → Listed (h.lists.eds priv.priv_ed).kind
    → Returns o
    → Returns (after_prepare fuel toggled u priv h o)
after_prepare-Returns fuel toggled u priv h none l r = absurd r
after_prepare-Returns fuel toggled u priv h (some (false, (e, (m, memory)))) l r = tt
after_prepare-Returns fuel toggled u priv h (some (true, (e, (m, memory)))) l r =
    fill_queue-Returns toggled u (record priv { portable = e })
      (record h { mem = m; memory = memory })
      (if is_oper (h.lists.eds priv.priv_ed).state
        then some h.lists
        else ep_link fuel priv.priv_ed h.lists)
      (if_both Returns (is_oper (h.lists.eds priv.priv_ed).state) _ _ (λ on. tt)
        (λ off. ep_link-Returns fuel priv.priv_ed h.lists l))

submit_locked-Returns :
    (btv : ℕ → ℕ) (fuel : ℕ) (k : Kernel) (u : UrbState) (priv : Priv) (h : Host)
    → Atomic k.transfer_copy
    → Atomic k.setup_copy
    → Listed (h.lists.eds priv.priv_ed).kind
    → h.usb_ed_lock ≡ false
    → Returns (submit_locked btv fuel k u priv h)
submit_locked-Returns btv fuel k u priv h a b l free =
    let ed = h.lists.eds priv.priv_ed in
    let u' = record u { start_frame = first_frame u ed h.frame_no } in
    let h' = record h { usb_ed_lock = true } in
    let o =
      portable_prepare_urb_on_submit btv k.transfer_copy k.setup_copy u.buffers h.mem h.memory in
    if_both Returns h.usb_ed_lock none _ (λ held. false≢true (sym free ∙ held))
      (λ _.
        if_both Returns (is_new ed.state || ed.state.del) _ _ (λ gone. tt)
          (λ there.
            after_prepare-Returns fuel k.toggled u' priv h' o l
              (prepare-Returns btv k.transfer_copy k.setup_copy u.buffers h.mem h.memory a b)))

after_tds-Returns :
    (btv : ℕ → ℕ) (fuel : ℕ) (k : Kernel) (e size : ℕ) (u : UrbState) (h : Host)
    (o : Option (Bool × (List ℕ × Mem)))
    → Atomic k.transfer_copy
    → Atomic k.setup_copy
    → k.hook_returns ≡ true
    → Listed (h.lists.eds e).kind
    → h.usb_ed_lock ≡ false
    → Returns o
    → Returns (after_tds btv fuel k e size u h o)
after_tds-Returns btv fuel k e size u h none a b hook l free r = absurd r
after_tds-Returns btv fuel k e size u h (some (false, (tds, m))) a b hook l free r = tt
after_tds-Returns btv fuel k e size u h (some (true, (tds, m))) a b hook l free r =
    if_both Returns k.hook_returns _ _
      (λ back.
        submit_locked-Returns btv fuel k u (new_priv e size tds) (record h { mem = m }) a b l free)
      (λ lost. false≢true (sym lost ∙ hook))

-- Every allocation is made in interrupt context.
abbrev pub AllAtomic : Kernel → Type 0
AllAtomic k =
    Atomic k.dummy
    × ((i : ℕ) → Atomic (k.td_answer i))
    × Atomic k.transfer_copy
    × Atomic k.setup_copy

after_add-Returns :
    (btv : ℕ → ℕ) (fuel : ℕ) (k : Kernel) (e : ℕ) (u : UrbState) (o : Option (Bool × Host))
    → AllAtomic k
    → k.hook_returns ≡ true
    → AddedListed e o
    → Returns (after_add btv fuel k e u o)
after_add-Returns btv fuel k e u none a hook l = absurd l
after_add-Returns btv fuel k e u (some (false, h)) a hook l = tt
after_add-Returns btv fuel k e u (some (true, h)) a hook l =
    let size = td_size (transfer_of u) in
    let u' = record u { results = reset_packets u.pipe.kind u.packets u.results } in
    if_both Returns k.priv_ok _ _
      (λ ok.
        after_tds-Returns btv fuel k e size u' h (alloc_tds btv size 0 k.td_answer h.mem) a.2 a.3
          hook l.0 l.1 (alloc_tds-Returns btv size 0 k.td_answer h.mem a.1))
      (λ refused. tt)

-- Called in interrupt context with the lock free, for a control or bulk urb whose endpoint is new or of
-- the kind of its pipe, and where SideDumper_OnSubmit comes back, `sohci_submit_urb` returns: the driver
-- itself waits for no lock, walks no list without end and stays inside `local_mems`, whatever the kernel
-- answers to its allocations and with no fuel at all.
pub sohci_submit_urb-Returns :
    (btv : ℕ → ℕ) (fuel : ℕ) (k : Kernel) (usb_dev : ℕ) (eds_at : ℕ → ℕ) (u : UrbState) (h : Host)
    → AllAtomic k
    → k.hook_returns ≡ true
    → Listed u.pipe.kind
    → Fitting u.pipe (h.lists.eds (eds_at (ed_index u.pipe)))
    → h.usb_ed_lock ≡ false
    → Returns (sohci_submit_urb btv fuel k usb_dev eds_at u h)
unfolding sohci_submit_urb
sohci_submit_urb-Returns btv fuel k usb_dev eds_at u h a hook l fits free =
    let h' : Host = record h { uses = h.uses + 1 } in
    if_both Returns (not u.has_bus) _ _ (λ lost. tt)
      (λ there. elim (Option-cases u.hcpriv) [
        | inr (priv, busy) ↦ rw busy tt
        | inl fresh ↦ rw fresh (
            if_both Returns (u.pipe.device == h.rh_devnum) _ _ (λ hub. tt)
              (λ other.
                if_both Returns h.disabled _ _ (λ off. tt)
                  (λ on. after_add-Returns btv fuel k (eds_at (ed_index u.pipe)) u _ a hook (
                    ep_add_ed-Listed btv k.dummy eds_at usb_dev u.pipe u.interval 1 h' a.0 l fits
                      free))))
      ])
