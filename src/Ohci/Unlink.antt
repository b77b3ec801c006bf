-- ===== src/Ohci/Unlink.antt =====
-- `sohci_unlink_urb` of portable-ohci-core.c: an urb is taken back by its driver. The completion
-- handler is an argument, and so is what happens while the caller sleeps, and the frame numbers that
-- are read in a busy wait. `none` is a walk or a wait without end.
pub mod Requested
use ps2_side_dumper.Base.{
  ℕ, zero, suc, ◌+◌, ◌-◌, ◌%◌, Bool, true, false, not, ◌&&◌, ◌||◌, Option, none, some, List, [],
  ◌∷◌, ◌==◌, ltb, if◌then◌else◌,
}
use ps2_side_dumper.Ohci.Endpoints.{Ed}
use ps2_side_dumper.Ohci.Queue.{Priv}
use ps2_side_dumper.Ohci.Submit.{
  Host, UrbState, ep_rm_ed, update_ed, dec_use, Error, no_error, eilseq, eproto, epipe, etimedout,
  eoverflow, eremoteio, ecomm, exdev, econnreset, enoent, enodev, pending,
}
use ps2_side_dumper.Ohci.Done.Del.{Driver, set_urb, set_host, dl_del_list}
use ps2_side_dumper.Ohci.Done.Return.{drop_urb}

abbrev pub is_pending : Error → Bool
is_pending pending = true
is_pending no_error = false
is_pending eilseq = false
is_pending eproto = false
is_pending epipe = false
is_pending etimedout = false
is_pending eoverflow = false
is_pending eremoteio = false
is_pending ecomm = false
is_pending exdev = false
is_pending econnreset = false
is_pending enoent = false
is_pending enodev = false

-- What is returned: 0, -EINVAL, -ENODEV, or what `rh_unlink_urb` returns
pub data UnlinkCode : Type 0 where
  unlinked bad_urb no_device root_hub : UnlinkCode

abbrev pub set_status : ℕ → Error → Driver → Driver
set_status u status d = set_urb u (record (d.urbs u) { status = status }) d

-- The request: the urb is marked, and its endpoint is put on the list for the next frame.
abbrev pub request_removal : ℕ → Priv → Driver → Driver
request_removal u priv d =
    let e = priv.priv_ed in
    let mark = λ (ed : Ed). record ed { state = record ed.state { urb_del = true } } in
    set_host (update_ed e mark (ep_rm_ed e d.host))
      (set_urb u (record (d.urbs u) { hcpriv = some (record priv { deleted = true }) }) d)

module _ (complete : ℕ → Driver → Driver) where
  -- The busy wait in interrupt context, until the frame number has changed twice
  unfoldable pub poll : ℕ → (ℕ → ℕ) → ℕ → ℕ → ℕ → Driver → Option Driver
  poll zero frame_reads i frame_prev count d = none
  poll (suc fuel) frame_reads i frame_prev count d =
      let frame = frame_reads i % 2 in
      let same = poll fuel frame_reads (i + 1) frame_prev count d in
      if ltb count 2
      then if frame == frame_prev
        then same
        else if d.host.ed_rm_list (1 - frame) == 0
        then poll fuel frame_reads (i + 1) frame (count + 1) d
        else elim (dl_del_list complete (suc fuel) (1 - frame) d) [
          | none ↦ none
          | some d' ↦ poll fuel frame_reads (i + 1) frame (count + 1) d'
        ]
      else some d

  abbrev pub set_sof : Bool → Driver → Driver
  set_sof on d = set_host (record d.host { sof = on }) d

  abbrev pub end_wait : ℕ → Driver → Driver
  end_wait u d = set_status u enoent (set_host (dec_use d.host) d)

  abbrev pub end_poll : ℕ → Option Driver → Option (UnlinkCode × Driver)
  end_poll u none = none
  end_poll u (some d) = some (unlinked, end_wait u (set_sof true d))

  -- After the request
  abbrev pub wait_removal :
      ℕ → Bool → (Driver → Driver) → (ℕ → ℕ) → ℕ → Driver → Option (UnlinkCode × Driver)
  wait_removal fuel in_interrupt sleep frame_reads u d =
      if (d.urbs u).async_unlink
      then some (unlinked, set_status u pending d)
      else if d.host.disabled
      then some (unlinked, d)
      else if in_interrupt
      then end_poll u (poll fuel frame_reads 1 (frame_reads 0 % 2) 0 (set_sof false d))
      else some (unlinked, end_wait u (sleep d))

  -- The urb is not under way any more.
  abbrev pub unlink_idle : ℕ → Driver → Driver
  unlink_idle u d =
      let d' = drop_urb u d in
      let x = d.urbs u in
      if x.has_complete && x.async_unlink
      then set_status u no_error (complete u d')
      else set_status u enoent d'

  -- `sohci_unlink_urb`
  unfoldable pub sohci_unlink_urb :
      ℕ → Bool → (Driver → Driver) → (ℕ → ℕ) → ℕ → Driver → Option (UnlinkCode × Driver)
  sohci_unlink_urb fuel in_interrupt sleep frame_reads u d =
      let x = d.urbs u in
      if u == 0
      then some (bad_urb, d)
      else if not x.has_bus
      then some (no_device, d)
      else if x.pipe.device == d.host.rh_devnum
      then some (root_hub, set_host (dec_use d.host) d)
      else elim x.hcpriv [
        | none ↦ some (unlinked, d)
        | some priv ↦
            if is_pending x.status && not d.host.disabled
            then wait_removal fuel in_interrupt sleep frame_reads u (request_removal u priv d)
            else some (unlinked, unlink_idle u d)
      ]
