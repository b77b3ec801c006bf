-- ===== src/Ohci/Submit/Balance.antt =====
-- What `sohci_submit_urb` of portable-ohci-core.c leaves on each of its ways out.
use mathlib.Core.Path.{subst}
use ps2_side_dumper.Base.{
  if_both, ℕ, ◌+◌, ◌≡◌, refl, inl, inr, Bool, true, false, not, ◌||◌, Option, none, some, List,
  arith, ◌==◌, if◌then◌else◌, Bool-cases, Option-cases,
}
use ps2_side_dumper.Usb.{Pipe, Bytes}
use ps2_side_dumper.LocalMem.{Mem}
use ps2_side_dumper.LocalMem.UrbCopy.{Extra, AllocAnswers, portable_prepare_urb_on_submit}
use ps2_side_dumper.Ohci.Transfer.{td_size}
use ps2_side_dumper.Ohci.Endpoints.{Lists, ep_link}
use ps2_side_dumper.Ohci.Queue.{Priv}
use ps2_side_dumper.Ohci.Submit.{
  pending, first_frame, reset_packets, Host, UrbState, Kernel, Code, done, einval, enomem,
  eshutdown, to_hub, is_new, is_oper, deleting, ed_index, make_ed, end_add, ep_add_ed, urb_rm_priv,
  give_up, new_priv, transfer_of, fill_queue, after_prepare, alloc_tds, submit_locked, after_tds,
  after_add, sohci_submit_urb,
}

abbrev pub HasPriv : Option Priv → Type 0
HasPriv none = ⊥
HasPriv (some priv) = Unit

-- The ways out, for a use count `n` and a private part `before` the call.
abbrev pub Balanced : ℕ → Option Priv → Option (Code × (UrbState × Host)) → Type 0
Balanced n before none = Unit
Balanced n before (some (done, (u, h))) =
    (h.uses ≡ n + 1)
    × HasPriv u.hcpriv
    × (u.status ≡ pending)
    × (u.actual_length ≡ 0)
    × (h.usb_ed_lock ≡ false)
Balanced n before (some (einval, (u, h))) =
    (h.uses ≡ n) × (u.hcpriv ≡ before) × (h.usb_ed_lock ≡ false)
Balanced n before (some (enomem, (u, h))) = (h.uses ≡ n) × (u.hcpriv ≡ before)
Balanced n before (some (eshutdown, (u, h))) = (h.uses ≡ n + 1) × (u.hcpriv ≡ before)
Balanced n before (some (to_hub, (u, h))) = (h.uses ≡ n + 1) × (u.hcpriv ≡ before)

-- An endpoint that was added, or refused
abbrev pub Added : ℕ → Option (Bool × Host) → Type 0
Added n none = Unit
Added n (some (b, h)) = (h.uses ≡ n) × (h.usb_ed_lock ≡ not b)

abbrev Made : ℕ → Option (Bool × Host) → Type 0
Made n none = Unit
Made n (some (b, h)) = (h.uses ≡ n) × (h.usb_ed_lock ≡ true)

end_add-Added :
    (btv : ℕ → ℕ) (e usb_dev : ℕ) (p : Pipe) (interval load n : ℕ) (o : Option (Bool × Host))
    → Made n o
    → Added n (end_add btv e usb_dev p interval load o)
end_add-Added btv e usb_dev p interval load n none h = tt
end_add-Added btv e usb_dev p interval load n (some (false, h')) h = h
end_add-Added btv e usb_dev p interval load n (some (true, h')) h = (h.0, refl)

make_ed-Made :
    (btv : ℕ → ℕ) (k : AllocAnswers) (e : ℕ) (p : Pipe) (h : Host)
    → h.usb_ed_lock ≡ true
    → Made h.uses (make_ed btv k e p h)
unfolding make_ed
make_ed-Made btv k e p h held = ground (arith, held)

-- Where `ep_add_ed` returns an endpoint the lock is free again; where it returns NULL the lock is still
-- held. The use count is the same.
pub ep_add_ed-Added :
    (btv : ℕ → ℕ) (k : AllocAnswers) (eds_at : ℕ → ℕ) (usb_dev : ℕ) (p : Pipe) (interval load : ℕ)
    (h : Host)
    → Added h.uses (ep_add_ed btv k eds_at usb_dev p interval load h)
unfolding ep_add_ed
ep_add_ed-Added btv k eds_at usb_dev p interval load h =
    let e = eds_at (ed_index p) in
    let h' : Host = record h { usb_ed_lock = true } in
    elim (Bool-cases h.usb_ed_lock) [
      | inl held ↦ rw held tt
      | inr free ↦ rw free (elim (Bool-cases (deleting (h.lists.eds e).state)) [
        | inl del ↦ rw del (refl, refl)
        | inr calm ↦ rw calm (elim (Bool-cases (is_new (h.lists.eds e).state)) [
          | inl new ↦ rw new (
              end_add-Added btv e usb_dev p interval load h.uses (make_ed btv k e p h')
                (make_ed-Made btv k e p h' refl))
          | inr old ↦
              rw old
                (end_add-Added btv e usb_dev p interval load h.uses (some (true, h')) (refl, refl))
        ])
      ])
    ]

-- Giving up frees the private part and takes the use count back.
give_up-enomem :
    (n : ℕ) (priv : Priv) (u : UrbState) (h : Host)
    → h.uses ≡ n + 1
    → Balanced n none (some (give_up enomem (record u { hcpriv = some priv }) h))
unfolding urb_rm_priv
give_up-enomem n priv u h used = (omega (arith, used), refl)

give_up-einval :
    (n : ℕ) (priv : Priv) (u : UrbState) (h : Host)
    → h.uses ≡ n + 1
    → h.usb_ed_lock ≡ false
    → Balanced n none (some (give_up einval (record u { hcpriv = some priv }) h))
unfolding urb_rm_priv
give_up-einval n priv u h used free = (omega (arith, used), refl, free)

fill_queue-Balanced :
    (n : ℕ) (toggled : Bool) (u : UrbState) (priv : Priv) (h : Host) (o : Option Lists)
    → h.uses ≡ n + 1
    → Balanced n none (fill_queue toggled u priv h o)
fill_queue-Balanced n toggled u priv h none used = tt
fill_queue-Balanced n toggled u priv h (some lists) used = (used, tt, refl, refl, refl)

after_prepare-Balanced :
    (n fuel : ℕ) (toggled : Bool) (u : UrbState) (priv : Priv) (h : Host)
    (o : Option (Bool × (Extra × (Mem × Bytes))))
    → h.uses ≡ n + 1
    → Balanced n none (after_prepare fuel toggled u priv h o)
after_prepare-Balanced n fuel toggled u priv h none used = tt
after_prepare-Balanced n fuel toggled u priv h (some (false, (e, (m, memory)))) used =
    give_up-enomem n (record priv { portable = e }) u
      (record h { mem = m; memory = memory; usb_ed_lock = false }) used
after_prepare-Balanced n fuel toggled u priv h (some (true, (e, (m, memory)))) used =
    fill_queue-Balanced n toggled u (record priv { portable = e })
      (record h { mem = m; memory = memory })
      (if is_oper (h.lists.eds priv.priv_ed).state
        then some h.lists
        else ep_link fuel priv.priv_ed h.lists)
      used

submit_locked-Balanced :
    (btv : ℕ → ℕ) (n fuel : ℕ) (k : Kernel) (u : UrbState) (priv : Priv) (h : Host)
    → h.uses ≡ n + 1
    → Balanced n none (submit_locked btv fuel k u priv h)
submit_locked-Balanced btv n fuel k u priv h used =
    let ed = h.lists.eds priv.priv_ed in
    let u' = record u { start_frame = first_frame u ed h.frame_no } in
    let h' = record h { usb_ed_lock = true } in
    let o =
      portable_prepare_urb_on_submit btv k.transfer_copy k.setup_copy u.buffers h.mem h.memory in
    if_both (Balanced n none) h.usb_ed_lock none _ (λ held. tt)
      (λ free.
        if_both (Balanced n none) (is_new ed.state || ed.state.del) _ _
          (λ gone. give_up-einval n priv u h used free)
          (λ there. after_prepare-Balanced n fuel k.toggled u' priv h' o used))

after_tds-Balanced :
    (btv : ℕ → ℕ) (n fuel : ℕ) (k : Kernel) (e size : ℕ) (u : UrbState) (h : Host)
    (o : Option (Bool × (List ℕ × Mem)))
    → h.uses ≡ n + 1
    → Balanced n none (after_tds btv fuel k e size u h o)
after_tds-Balanced btv n fuel k e size u h none used = tt
after_tds-Balanced btv n fuel k e size u h (some (false, (tds, m))) used =
    give_up-enomem n (new_priv e size tds) u (record h { mem = m }) used
after_tds-Balanced btv n fuel k e size u h (some (true, (tds, m))) used =
    if_both (Balanced n none) k.hook_returns _ _
      (λ back.
        submit_locked-Balanced btv n fuel k u (new_priv e size tds) (record h { mem = m }) used)
      (λ lost. tt)

after_add-Balanced :
    (btv : ℕ → ℕ) (n fuel : ℕ) (k : Kernel) (e : ℕ) (u : UrbState) (o : Option (Bool × Host))
    → u.hcpriv ≡ none
    → Added (n + 1) o
    → Balanced n none (after_add btv fuel k e u o)
after_add-Balanced btv n fuel k e u none fresh a = tt
after_add-Balanced btv n fuel k e u (some (false, h)) fresh a = (omega (arith, a.0), fresh)
after_add-Balanced btv n fuel k e u (some (true, h)) fresh a =
    let size = td_size (transfer_of u) in
    let u' = record u { results = reset_packets u.pipe.kind u.packets u.results } in
    if_both (Balanced n none) k.priv_ok _ _
      (λ ok.
        after_tds-Balanced btv n fuel k e size u' h (alloc_tds btv size 0 k.td_answer h.mem) a.0)
      (λ refused. (omega (arith, a.0), fresh))

-- Called with the lock free, `sohci_submit_urb`, where it returns, comes out in one of these ways:
-- done, with the device in use once more, a private part, the status pending, no byte
-- transferred yet and the lock free; -EINVAL, with the use count and the private part as before and
-- the lock free; -ENOMEM, with the use count and the private part as before; handed to the root hub,
-- or -ESHUTDOWN, with the private part as before but the device in use once more.
pub sohci_submit_urb-Balanced :
    (btv : ℕ → ℕ) (fuel : ℕ) (k : Kernel) (usb_dev : ℕ) (eds_at : ℕ → ℕ) (u : UrbState) (h : Host)
    → h.usb_ed_lock ≡ false
    → Balanced h.uses u.hcpriv (sohci_submit_urb btv fuel k usb_dev eds_at u h)
unfolding sohci_submit_urb
sohci_submit_urb-Balanced btv fuel k usb_dev eds_at u h free =
    let h' : Host = record h { uses = h.uses + 1 } in
    if_both (Balanced h.uses u.hcpriv) (not u.has_bus) _ _ (λ lost. (refl, refl, free))
      (λ there. elim (Option-cases u.hcpriv) [
        | inr (priv, busy) ↦ rw busy (refl, busy, free)
        | inl fresh ↦ rw fresh (
            if_both (Balanced h.uses none) (u.pipe.device == h.rh_devnum) _ _ (λ hub. (refl, fresh))
              (λ other.
                if_both (Balanced h.uses none) h.disabled _ _ (λ off. (refl, fresh))
                  (λ on.
                    after_add-Balanced btv h.uses fuel k (eds_at (ed_index u.pipe)) u
                      (ep_add_ed btv k.dummy eds_at usb_dev u.pipe u.interval 1 h') fresh
                      (ep_add_ed-Added btv k.dummy eds_at usb_dev u.pipe u.interval 1 h'))))
      ])

-- Once `ep_add_ed` has returned NULL, each later call of it waits for the lock for ever, whatever the
-- endpoint.
ep_add_ed-stuck :
    (btv : ℕ → ℕ) (k k' : AllocAnswers) (eds_at eds_at' : ℕ → ℕ) (usb_dev usb_dev' : ℕ)
    (p p' : Pipe) (interval load interval' load' : ℕ) (h h' : Host)
    → ep_add_ed btv k eds_at usb_dev p interval load h ≡ some (false, h')
    → ep_add_ed btv k' eds_at' usb_dev' p' interval' load' h' ≡ none
unfolding ep_add_ed
ep_add_ed-stuck btv k k' eds_at eds_at' usb_dev usb_dev' p p' interval load interval' load' h h' e =
    let a = subst (Added h.uses) e (ep_add_ed-Added btv k eds_at usb_dev p interval load h) in
    rw a.1 refl
