-- ===== src/Ohci/Submit.antt =====
-- `sohci_submit_urb` of portable-ohci-core.c with `urb_rm_priv`, over the endpoints, the queues and the
-- allocator. SideDumper_OnSubmit changes nothing here and is left out, as are the cache flushes and
-- usb_settoggle. `none` as the outcome is an access outside `local_mems`, a wait for a lock that is
-- held, or an endless walk through the tree of the interrupt endpoints.
mod Device
pub mod Balance
pub mod Returns
unfoldable pub use Device.*
use ps2_side_dumper.Base.{
  ℕ, zero, suc, ◌+◌, ◌-◌, ◌%◌, ◌^◌, Bool, true, false, not, ◌||◌, Option, none, some, List, [], ◌∷◌,
  ◌==◌, if◌then◌else◌, map, length,
}
use ps2_side_dumper.Usb.{Pipe, PipeType, Bytes}
use ps2_side_dumper.LocalMem.{Mem, alloc_local_mem, free_local_mem}
use ps2_side_dumper.LocalMem.UrbCopy.{
  Extra, UrbBuffers, AllocAnswers, portable_prepare_urb_on_submit, portable_free_urb,
}
use ps2_side_dumper.Ohci.Transfer.{Transfer, td_size}
use ps2_side_dumper.Ohci.Endpoints.{Ed, EdState, Eds, Lists, ep_link}
use ps2_side_dumper.Ohci.Queue.{Tds, Priv, TdQueues, Source, fill_urb}

-- What is read and written of the urb. Of its flags, USB_ISO_ASAP, USB_DISABLE_SPD and USB_ASYNC_UNLINK;
-- the result of a packet is its actual length and its status.
pub record UrbState : Type 0 where
  pub urb_ptr : ℕ
  pub has_bus : Bool
  pub has_complete : Bool
  pub next_urb : ℕ
  pub pipe : Pipe
  pub packets : List (ℕ × ℕ)
  pub interval : ℕ
  pub iso_asap : Bool
  pub disable_spd : Bool
  pub async_unlink : Bool
  pub buffers : UrbBuffers
  pub hcpriv : Option Priv
  pub status : Error
  pub actual_length : ℕ
  pub start_frame : ℕ
  pub results : List (ℕ × Error)

-- What the kernel answers: to the allocations for the dummy and the other descriptors, to kmalloc of
-- the private part, to the allocations of the copies, and usb_gettoggle. SideDumper_OnSubmit, which
-- Dumper models, changes only the dumper's own state; `hook_returns` is whether it comes back: it can
-- wait for the queue's lock, read through NULL, or go on for ever.
pub record Kernel : Type 0 where
  pub dummy : AllocAnswers
  pub priv_ok : Bool
  pub td_answer : ℕ → AllocAnswers
  pub transfer_copy : AllocAnswers
  pub setup_copy : AllocAnswers
  pub toggled : Bool
  pub hook_returns : Bool

pub data Code : Type 0 where
  done einval enomem eshutdown to_hub : Code

abbrev pub transfer_of : UrbState → Transfer
transfer_of u = record {
  kind = u.pipe.kind;
  out = u.pipe.out;
  transfer_buffer_length = u.buffers.transfer_buffer_length;
  packets = u.packets;
}

-- The frees of `urb_rm_priv`
unfoldable pub free_tds : List ℕ → Mem → Mem
free_tds [] m = m
free_tds (t ∷ ts) m = free_tds ts (if t == 0 then m else (free_local_mem t m).1)

-- `urb_rm_priv`
unfoldable pub urb_rm_priv : UrbState → Host → UrbState × Host
urb_rm_priv u h = elim u.hcpriv [
  | none ↦ (u, h)
  | some priv ↦ (
    record u { hcpriv = none },
    record h { mem = (portable_free_urb priv.portable (free_tds priv.td h.mem)).1 },
  )
]

abbrev pub dec_use : Host → Host
dec_use h = record h { uses = h.uses - 1 }

-- Giving up once there is a private part
abbrev pub give_up : Code → UrbState → Host → Code × (UrbState × Host)
give_up code u h = (code, ((urb_rm_priv u h).0, dec_use (urb_rm_priv u h).1))

-- The frame of the first packet
abbrev pub first_frame : UrbState → Ed → ℕ → ℕ
first_frame u ed frame_no =
    if u.iso_asap
    then (if is_oper ed.state then ed.last_iso + 1 else frame_no + 10) % 2 ^ 16
    else u.start_frame

abbrev pub source_of : UrbState → Extra → Source
source_of u e = record {
  urb_ptr = u.urb_ptr;
  ctrl = e.setup_packet;
  data_ptr = e.transfer_buffer;
  start_frame = u.start_frame;
}

abbrev pub new_priv : ℕ → ℕ → List ℕ → Priv
new_priv e size tds = record {
  length_ = size;
  td_cnt = 0;
  deleted = false;
  priv_ed = e;
  td = tds;
  portable = record { transfer_buffer = 0; setup_packet = 0 };
}

-- The end, with the endpoint in its list: `td_submit_urb`
abbrev pub fill_queue :
    Bool → UrbState → Priv → Host → Option Lists → Option (Code × (UrbState × Host))
fill_queue toggled u priv h none = none
fill_queue toggled u priv h (some lists) =
    let q =
      fill_urb toggled (source_of u priv.portable) (transfer_of u)
        (record { tds = h.tds; eds = lists.eds; priv = priv }) in
    some (
      done,
      (
        record u { hcpriv = some q.priv; status = pending; actual_length = 0 },
        record h { lists = record lists { eds = q.eds }; tds = q.tds; usb_ed_lock = false },
      ),
    )

-- After `Portable_PrepareUrbOnSubmit`
abbrev pub after_prepare :
    ℕ
    → Bool
    → UrbState
    → Priv
    → Host
    → Option (Bool × (Extra × (Mem × Bytes)))
    → Option (Code × (UrbState × Host))
after_prepare fuel toggled u priv h none = none
after_prepare fuel toggled u priv h (some (false, (e, (m, memory)))) = some (
    give_up enomem (record u { hcpriv = some (record priv { portable = e }) })
      (record h { mem = m; memory = memory; usb_ed_lock = false }))
after_prepare fuel toggled u priv h (some (true, (e, (m, memory)))) =
    fill_queue toggled u (record priv { portable = e }) (record h { mem = m; memory = memory })
      (if is_oper (h.lists.eds priv.priv_ed).state
        then some h.lists
        else ep_link fuel priv.priv_ed h.lists)

module _ (bus_to_virt : ℕ → ℕ) where
  -- OHCI_ALLOC of so many descriptors, `sizeof (td_t)` being 32: whether all were allocated, and the
  -- pointers, the others being NULL.
  unfoldable pub alloc_tds : ℕ → ℕ → (ℕ → AllocAnswers) → Mem → Option (Bool × (List ℕ × Mem))
  alloc_tds zero i k m = some (true, ([], m))
  alloc_tds (suc n) i k m =
      elim (alloc_local_mem bus_to_virt (k i).irq (k i).first (k i).second (k i).new_ok 32 m) [
        | none ↦ none
        | some (t, m') ↦
            if t == 0 then some (false, ([], m')) else elim (alloc_tds n (i + 1) k m') [
              | none ↦ none
              | some (all, (ts, m'')) ↦ some (all, (t ∷ ts, m''))
            ]
      ]

  -- Under the lock
  abbrev pub submit_locked : ℕ → Kernel → UrbState → Priv → Host → Option (Code × (UrbState × Host))
  submit_locked fuel k u priv h =
      let ed = h.lists.eds priv.priv_ed in
      let u' = record u { start_frame = first_frame u ed h.frame_no } in
      if h.usb_ed_lock
      then none
      else if is_new ed.state || ed.state.del
      then some (give_up einval (record u { hcpriv = some priv }) h)
      else after_prepare fuel k.toggled u' priv (record h { usb_ed_lock = true })
          (portable_prepare_urb_on_submit bus_to_virt k.transfer_copy k.setup_copy u.buffers h.mem
            h.memory)

  -- After the descriptors were allocated
  abbrev pub after_tds :
      ℕ
      → Kernel
      → ℕ
      → ℕ
      → UrbState
      → Host
      → Option (Bool × (List ℕ × Mem))
      → Option (Code × (UrbState × Host))
  after_tds fuel k e size u h none = none
  after_tds fuel k e size u h (some (false, (tds, m))) =
      some
        (give_up enomem (record u { hcpriv = some (new_priv e size tds) }) (record h { mem = m }))
  after_tds fuel k e size u h (some (true, (tds, m))) =
      if k.hook_returns
      then submit_locked fuel k u (new_priv e size tds) (record h { mem = m })
      else none

  -- After `ep_add_ed`
  abbrev pub after_add :
      ℕ → Kernel → ℕ → UrbState → Option (Bool × Host) → Option (Code × (UrbState × Host))
  after_add fuel k e u none = none
  after_add fuel k e u (some (false, h)) = some (enomem, (u, dec_use h))
  after_add fuel k e u (some (true, h)) =
      let u' = record u { results = reset_packets u.pipe.kind u.packets u.results } in
      if k.priv_ok
      then after_tds fuel k e (td_size (transfer_of u)) u' h
          (alloc_tds (td_size (transfer_of u)) 0 k.td_answer h.mem)
      else some (enomem, (u', dec_use h))

  -- `sohci_submit_urb`; `eds_at` is where the endpoints of the device are.
  unfoldable pub sohci_submit_urb :
      ℕ → Kernel → ℕ → (ℕ → ℕ) → UrbState → Host → Option (Code × (UrbState × Host))
  sohci_submit_urb fuel k usb_dev eds_at u h =
      if not u.has_bus then some (einval, (u, h)) else elim u.hcpriv [
        | some priv ↦ some (einval, (u, h))
        | none ↦
            let h' = record h { uses = h.uses + 1 } in
            if u.pipe.device == h.rh_devnum
            then some (to_hub, (u, h'))
            else if h.disabled
            then some (eshutdown, (u, h'))
            else after_add fuel k (eds_at (ed_index u.pipe)) u
                (ep_add_ed bus_to_virt k.dummy eds_at usb_dev u.pipe u.interval 1 h')
      ]
