-- ===== src/Ohci/Unlink/Requested.antt =====
-- What `sohci_unlink_urb` of portable-ohci-core.c asks for, and that `dl_del_list` does it.
use mathlib.Core.Path.{subst}
use mathlib.Core.Bool.{false≢true}
use ps2_side_dumper.Base.{
  if_both, ℕ, suc, ◌+◌, ◌%◌, ◌<◌, ap, ◌≡◌, ◌≢◌, refl, sym, ◌∙◌, Bool, true, false, not, ◌&&◌,
  Option, none, some, List, ◌∷◌, arith, ◌==◌, length,
}
use ps2_side_dumper.Ohci.Endpoints.Segment.{Fresh}
use ps2_side_dumper.Ohci.Queue.{Tds, Priv}
use ps2_side_dumper.Ohci.Queue.Chained.{Links}
use ps2_side_dumper.Ohci.Submit.{Host, ep_rm_ed, deleting, pending}
use ps2_side_dumper.Ohci.Done.Del.{Driver, dl_del_list}
use ps2_side_dumper.Ohci.Done.Removed.{Left, Of, Quiet, some_case}
use ps2_side_dumper.Ohci.Done.ListRemoved.{ListEmptied, dl_del_list-ListEmptied}
use ps2_side_dumper.Ohci.Unlink.{
  UnlinkCode, unlinked, is_pending, set_status, request_removal, wait_removal, sohci_unlink_urb,
}

-- An urb that is under way: it can be taken back, and its endpoint is not being deleted.
pub record UnderWay (u : ℕ) (priv : Priv) (xs : List ℕ) (d : Driver) : Type 0 where
  pub address : u ≢ 0
  pub endpoint : priv.priv_ed ≢ 0
  pub on_bus : (d.urbs u).has_bus ≡ true
  pub not_hub : (d.urbs u).pipe.device ≢ d.host.rh_devnum
  pub under_way : (d.urbs u).status ≡ pending
  pub async : (d.urbs u).async_unlink ≡ true
  pub part : (d.urbs u).hcpriv ≡ some priv
  pub enabled : d.host.disabled ≡ false
  pub calm : deleting (d.host.lists.eds priv.priv_ed).state ≡ false
  pub count : priv.td_cnt + length xs ≡ priv.length_

-- The descriptors of the urb make up the queue of its endpoint.
pub record Queued (u : ℕ) (priv : Priv) (t end : ℕ) (xs : List ℕ) (d : Driver) : Type 0 where
  pub head : (d.host.lists.eds priv.priv_ed).hw_head ≡ t
  pub tail : (d.host.lists.eds priv.priv_ed).hw_tail ≡ end
  pub links : Links d.host.tds t xs end
  pub fresh : Fresh end xs
  pub own : Of d.host.tds u xs

-- The removal is asked for, and nothing else is changed.
abbrev pub Requested : ℕ → Priv → List ℕ → Driver → Option (UnlinkCode × Driver) → Type 0
Requested u priv xs d none = ⊥
Requested u priv xs d (some (code, d')) =
    let e = priv.priv_ed in
    let frame = d.host.frame_no % 2 in
    (code ≡ unlinked)
    × ((d'.urbs u).status ≡ pending)
    × (d'.host.uses ≡ d.host.uses)
    × (d'.host.tds ≡ d.host.tds)
    × ((d'.host.lists.eds e).hw_head ≡ (d.host.lists.eds e).hw_head)
    × (d'.host.ed_rm_list frame ≡ e)
    × ((d'.host.lists.eds e).rm_next ≡ d.host.ed_rm_list frame)
    × ((d'.host.lists.eds e).ed_skip ≡ true)
    × (d'.host.sof ≡ true)
    × ((d'.urbs u).async_unlink ≡ true)
    × ((d'.urbs u).hcpriv ≡ some (record priv { deleted = true }))
    × ((d'.host.lists.eds e).hw_tail ≡ (d.host.lists.eds e).hw_tail)

-- `ep_rm_ed` puts the endpoint at the head of the list for the parity of the frame.
abbrev Asked : ℕ → Host → Host → Type 0
Asked e h h' =
    (h'.uses ≡ h.uses)
    × (h'.tds ≡ h.tds)
    × ((h'.lists.eds e).hw_head ≡ (h.lists.eds e).hw_head)
    × (h'.ed_rm_list (h.frame_no % 2) ≡ e)
    × ((h'.lists.eds e).rm_next ≡ h.ed_rm_list (h.frame_no % 2))
    × ((h'.lists.eds e).ed_skip ≡ true)
    × (h'.sof ≡ true)
    × ((h'.lists.eds e).hw_tail ≡ (h.lists.eds e).hw_tail)

ep_rm_ed-Asked :
    (e : ℕ) (h : Host) → deleting (h.lists.eds e).state ≡ false → Asked e h (ep_rm_ed e h)
unfolding ep_rm_ed
ep_rm_ed-Asked e h calm =
    let at : (e == e) ≡ true = ground arith in
    let here : (h.frame_no % 2 == h.frame_no % 2) ≡ true = ground arith in
    if_both (Asked e h) (deleting (h.lists.eds e).state) _ _
      (λ asked. absurd (false≢true (sym calm ∙ asked)))
      (λ _. (refl, refl, rw at refl, rw here refl, rw at refl, rw at refl, refl, rw at refl))

request_removal-Requested :
    (u : ℕ) (priv : Priv) (xs : List ℕ) (d : Driver)
    → UnderWay u priv xs d
    → Requested u priv xs d (some (unlinked, set_status u pending (request_removal u priv d)))
request_removal-Requested u priv xs d w =
    let self : (u == u) ≡ true = ground arith in
    let e = priv.priv_ed in
    let at : (e == e) ≡ true = ground arith in
    let h = ep_rm_ed-Asked e d.host w.calm in
    (
      refl,
      rw self refl,
      h.0,
      h.1,
      rw at h.2,
      h.3,
      rw at h.4,
      rw at h.5,
      h.6,
      rw self w.async,
      rw self refl,
      rw at h.7,
    )

wait_removal-Requested :
    (complete : ℕ → Driver → Driver) (fuel : ℕ) (in_interrupt : Bool) (sleep : Driver → Driver)
    (frame_reads : ℕ → ℕ) (u : ℕ) (priv : Priv) (xs : List ℕ) (d : Driver)
    → UnderWay u priv xs d
    → Requested u priv xs d
        (wait_removal complete fuel in_interrupt sleep frame_reads u (request_removal u priv d))
wait_removal-Requested complete fuel in_interrupt sleep frame_reads u priv xs d w =
    let self : (u == u) ≡ true = ground arith in
    let async : ((request_removal u priv d).urbs u).async_unlink ≡ true = rw self w.async in
    if_both (Requested u priv xs d) ((request_removal u priv d).urbs u).async_unlink _ _
      (λ yes. request_removal-Requested u priv xs d w)
      (λ not_so. absurd (false≢true (sym not_so ∙ async)))

-- For an urb that is under way, is to be taken back asynchronously and does not belong to the root hub,
-- on an enabled controller and an endpoint that is not being deleted, `sohci_unlink_urb` returns 0 at
-- once: the urb is marked and its status is -EINPROGRESS, the endpoint is skipped and stands first on
-- the list of the frame's parity, before those that were on it, and the interrupt of the next frame is
-- enabled. The use count and the queues are as before.
pub sohci_unlink_urb-Requested :
    (complete : ℕ → Driver → Driver) (fuel : ℕ) (in_interrupt : Bool) (sleep : Driver → Driver)
    (frame_reads : ℕ → ℕ) (u : ℕ) (priv : Priv) (xs : List ℕ) (d : Driver)
    → UnderWay u priv xs d
    → Requested u priv xs d (sohci_unlink_urb complete fuel in_interrupt sleep frame_reads u d)
unfolding sohci_unlink_urb
sohci_unlink_urb-Requested complete fuel in_interrupt sleep frame_reads u priv xs d w =
    let x = d.urbs u in
    let goal = Requested u priv xs d in
    let status : is_pending x.status ≡ true = rw w.under_way refl in
    let bus : not x.has_bus ≡ false = ap not w.on_bus in
    let address : (u == 0) ≡ false = ground (arith, w.address) in
    let device : (x.pipe.device == d.host.rh_devnum) ≡ false = ground (arith, w.not_hub) in
    if_both goal (u == 0) _ _ (λ h. absurd (false≢true (sym address ∙ h)))
      (λ _.
        if_both goal (not x.has_bus) _ _ (λ h. absurd (false≢true (sym bus ∙ h)))
          (λ _.
            if_both goal (x.pipe.device == d.host.rh_devnum) _ _
              (λ h. absurd (false≢true (sym device ∙ h)))
              (λ _. some_case goal x.hcpriv priv _ _ w.part (
                if_both goal (is_pending x.status && not d.host.disabled) _ _
                  (λ _.
                    wait_removal-Requested complete fuel in_interrupt sleep frame_reads u priv xs d
                      w)
                  (λ h. absurd (ground (arith, h, status, w.enabled)))))))

-- `dl_del_list`, at the next frame, for the list of the frame of the request
abbrev pub Removes :
    (ℕ → Driver → Driver) → ℕ → ℕ → ℕ → ℕ → ℕ → List ℕ → Option (UnlinkCode × Driver) → Type 0
Removes complete fuel frame e u tail xs none = ⊥
Removes complete fuel frame e u tail xs (some (code, d)) =
    ListEmptied e u tail (length xs) frame d (dl_del_list complete (suc fuel) frame d)

Requested-Removes :
    (complete : ℕ → Driver → Driver) (fuel u t tail x : ℕ) (xs : List ℕ) (priv : Priv) (d : Driver)
    (o : Option (UnlinkCode × Driver))
    → UnderWay u priv (x ∷ xs) d
    → Queued u priv t tail (x ∷ xs) d
    → Quiet complete
    → length (x ∷ xs) < fuel
    → d.host.ed_rm_list (d.host.frame_no % 2) ≡ 0
    → Requested u priv (x ∷ xs) d o
    → Removes complete fuel (d.host.frame_no % 2) priv.priv_ed u tail (x ∷ xs) o
Requested-Removes complete fuel u t tail x xs priv d none w q quiet n alone r = absurd r
Requested-Removes complete fuel u t tail x xs priv d (some (code, d')) w q quiet n alone r =
    dl_del_list-ListEmptied complete fuel (d.host.frame_no % 2) priv.priv_ed u t tail (x ∷ xs) d'
      quiet n r.5 w.endpoint (r.6 ∙ alone) (r.4 ∙ q.head) (r.11 ∙ q.tail)
      (subst (λ (tds : Tds). Links tds t (x ∷ xs) tail) (sym r.3) q.links) q.fresh
      (subst (λ (tds : Tds). Of tds u (x ∷ xs)) (sym r.3) q.own)
      (subst (λ (p : Option Priv). Left p (x ∷ xs)) (sym r.10) (refl, w.count)) r.9

-- For an urb that is under way, is to be taken back asynchronously and does not belong to the root hub,
-- on an enabled controller, whose descriptors that are left make up the queue of an endpoint that is not
-- being deleted, and while no other endpoint is to be removed in frames of this parity: after
-- `sohci_unlink_urb`, `dl_del_list` for this parity comes to an end, with a completion handler that leaves
-- the driver as it is and fuel for more rounds than the queue is long. The queue is empty, the private
-- part of the urb is gone, the use of the device was given back once for each descriptor, and no endpoint
-- is to be removed in frames of this parity any more.
pub sohci_unlink_urb-Removes :
    (complete : ℕ → Driver → Driver) (fuel : ℕ) (in_interrupt : Bool) (sleep : Driver → Driver)
    (frame_reads : ℕ → ℕ) (u t tail x : ℕ) (xs : List ℕ) (priv : Priv) (d : Driver)
    → UnderWay u priv (x ∷ xs) d
    → Queued u priv t tail (x ∷ xs) d
    → Quiet complete
    → length (x ∷ xs) < fuel
    → d.host.ed_rm_list (d.host.frame_no % 2) ≡ 0
    → Removes complete fuel
        (d.host.frame_no % 2)
        priv.priv_ed
        u
        tail
        (x ∷ xs)
        (sohci_unlink_urb complete fuel in_interrupt sleep frame_reads u d)
sohci_unlink_urb-Removes complete fuel in_interrupt sleep frame_reads u t tail x xs priv d w q quiet
      n alone =
    Requested-Removes complete fuel u t tail x xs priv d
      (sohci_unlink_urb complete fuel in_interrupt sleep frame_reads u d) w q quiet n alone
      (sohci_unlink_urb-Requested complete fuel in_interrupt sleep frame_reads u priv (x ∷ xs) d w)
