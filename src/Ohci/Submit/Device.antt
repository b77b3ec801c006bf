-- ===== src/Ohci/Submit/Device.antt =====
-- `ep_add_ed` and `ep_rm_ed` of portable-ohci-core.c: the endpoints of a device. `sizeof (td_t)` is 32.
use ps2_side_dumper.Base.{
  ℕ, ◌+◌, ◌*◌, ◌%◌, ◌^◌, Bool, true, false, not, ◌&&◌, ◌||◌, Option, none, some, List, [], ◌∷◌,
  ◌==◌, if◌then◌else◌, bit_or,
}
use ps2_side_dumper.Usb.{Pipe, PipeType, isochronous, interrupt, control, bulk, other_type, Bytes}
use ps2_side_dumper.LocalMem.{Mem, alloc_local_mem}
use ps2_side_dumper.LocalMem.UrbCopy.{AllocAnswers}
use ps2_side_dumper.Ohci.Endpoints.{Ed, EdState, ed_unlink, Lists, update}
use ps2_side_dumper.Ohci.Queue.{Tds}

-- The status of an urb or a packet: an error of the kernel or USB_ST_URB_PENDING
pub data Error : Type 0 where
  no_error eilseq eproto epipe etimedout eoverflow eremoteio ecomm exdev econnreset enoent enodev
        pending :
      Error

-- By completion code
abbrev pub cc_to_error : List Error
cc_to_error =
    no_error ∷ eilseq ∷ eproto ∷ eilseq ∷ epipe ∷ etimedout ∷ eproto ∷ eproto ∷ eoverflow
    ∷ eremoteio ∷ etimedout ∷ etimedout ∷ ecomm ∷ ecomm ∷ etimedout ∷ etimedout ∷ []

-- What the functions on urbs read and write: the parts of `ohci_t`, the descriptors, the allocator,
-- memory, the use count of the device and `ed_cnt` of its private part. Of `hc_control` only the
-- flags OHCI_CTRL_CLE and OHCI_CTRL_BLE are kept; `sof` is whether OHCI_INTR_SF is enabled.
pub record Host : Type 0 where
  pub lists : Lists
  pub tds : Tds
  pub mem : Mem
  pub memory : Bytes
  pub disabled : Bool
  pub rh_devnum : ℕ
  pub frame_no : ℕ
  pub dev : ℕ → ℕ
  pub uses : ℕ
  pub ed_cnt : ℕ
  pub ed_rm_list : ℕ → ℕ
  pub cle : Bool
  pub ble : Bool
  pub sof : Bool
  pub usb_ed_lock : Bool

abbrev pub is_new : EdState → Bool
is_new s = not (s.unlink || s.oper || s.del || s.urb_del)

abbrev pub is_oper : EdState → Bool
is_oper s = s.oper && not (s.unlink || s.del || s.urb_del)

abbrev pub is_unlink : EdState → Bool
is_unlink s = s.unlink && not (s.oper || s.del || s.urb_del)

-- A request to delete the endpoint or one of its urbs is pending.
abbrev pub deleting : EdState → Bool
deleting s = s.del || s.urb_del

-- The place of the endpoint of a pipe among those of its device
abbrev pub ed_index : Pipe → ℕ
ed_index p = elim p.kind [
  | control ↦ p.endpoint * 2
  | isochronous ↦ p.endpoint * 2 + (if p.out then 1 else 0)
  | interrupt ↦ p.endpoint * 2 + (if p.out then 1 else 0)
  | bulk ↦ p.endpoint * 2 + (if p.out then 1 else 0)
  | other_type ↦ p.endpoint * 2 + (if p.out then 1 else 0)
]

abbrev pub direction_bits : Pipe → ℕ
direction_bits p = elim p.kind [
  | control ↦ 0
  | isochronous ↦ bit_or 0x8000 (if p.out then 0x800 else 0x1000)
  | interrupt ↦ if p.out then 0x800 else 0x1000
  | bulk ↦ if p.out then 0x800 else 0x1000
  | other_type ↦ if p.out then 0x800 else 0x1000
]

-- hwINFO of an endpoint
abbrev pub ed_info : Pipe → ℕ
ed_info p =
    bit_or (bit_or (bit_or p.device (p.endpoint * 2 ^ 7)) (direction_bits p))
      (bit_or (if p.slow then 2 ^ 13 else 0) (p.max_packet * 2 ^ 16 % 2 ^ 32))

-- The period and the load are bytes; they are set only for an interrupt endpoint that is not linked.
abbrev pub sets_period : Ed → Bool
sets_period ed = elim ed.kind [
  | interrupt ↦ is_unlink ed.state
  | isochronous ↦ false
  | control ↦ false
  | bulk ↦ false
  | other_type ↦ false
]

abbrev pub set_period : ℕ → ℕ → Ed → Ed
set_period interval load ed = record ed {
  int_period = if sets_period ed then interval % 2 ^ 8 else ed.int_period;
  int_load = if sets_period ed then load % 2 ^ 8 else ed.int_load;
}

abbrev pub update_ed : ℕ → (Ed → Ed) → Host → Host
update_ed e f h = record h { lists = record h.lists { eds = update h.lists.eds e f } }

abbrev pub ready_ed : ℕ → ℕ → Pipe → ℕ → ℕ → Host → Host
ready_ed e usb_dev p interval load h =
    update_ed e
      (λ ed. set_period interval load (record ed { hw_info = ed_info p; ed_skip = false }))
      (record h { dev = λ i. if i == p.device then usb_dev else h.dev i; usb_ed_lock = false })

-- What a new endpoint gets with its dummy descriptor
abbrev pub first_ed : ℕ → ℕ → Pipe → Host → Host
first_ed e td p h =
    update_ed e
      (λ ed. record ed {
        hw_tail = td;
        hw_head = td;
        halted = false;
        state = ed_unlink;
        kind = p.kind;
      })
      (record h { ed_cnt = h.ed_cnt + 1 })

module _ (bus_to_virt : ℕ → ℕ) where
  -- The case ED_NEW: false where there is no memory for the dummy.
  unfoldable pub make_ed : AllocAnswers → ℕ → Pipe → Host → Option (Bool × Host)
  make_ed k e p h =
      let h' = update_ed e (λ ed. record ed { hw_info = 0; ed_skip = true }) h in
      elim (alloc_local_mem bus_to_virt k.irq k.first k.second k.new_ok 32 h.mem) [
        | none ↦ none
        | some (td, m) ↦
            if td == 0
            then some (false, record h' { mem = m })
            else some (true, first_ed e td p (record h' { mem = m }))
      ]

  abbrev pub end_add : ℕ → ℕ → Pipe → ℕ → ℕ → Option (Bool × Host) → Option (Bool × Host)
  end_add e usb_dev p interval load none = none
  end_add e usb_dev p interval load (some (false, h)) = some (false, h)
  end_add e usb_dev p interval load (some (true, h)) =
      some (true, ready_ed e usb_dev p interval load h)

  -- `ep_add_ed`: false where it returns NULL. It waits for a lock that is held.
  unfoldable pub ep_add_ed : AllocAnswers → (ℕ → ℕ) → ℕ → Pipe → ℕ → ℕ → Host → Option (Bool × Host)
  ep_add_ed k eds_at usb_dev p interval load h =
      let e = eds_at (ed_index p) in
      let h' = record h { usb_ed_lock = true } in
      if h.usb_ed_lock
      then none
      else if deleting (h.lists.eds e).state
      then some (false, h')
      else end_add e usb_dev p interval load
          (if is_new (h.lists.eds e).state then make_ed k e p h' else some (true, h'))

-- What `sohci_submit_urb` sets for the packets of an isochronous urb
abbrev pub reset_all : List (ℕ × ℕ) → List (ℕ × Error)
reset_all [] = []
reset_all (p ∷ ps) = (0, exdev) ∷ reset_all ps

abbrev pub reset_packets : PipeType → List (ℕ × ℕ) → List (ℕ × Error) → List (ℕ × Error)
reset_packets isochronous ps results = reset_all ps
reset_packets interrupt ps results = results
reset_packets control ps results = results
reset_packets bulk ps results = results
reset_packets other_type ps results = results

-- `ep_rm_ed`
unfoldable pub ep_rm_ed : ℕ → Host → Host
ep_rm_ed e h =
    let frame = h.frame_no % 2 in
    let ed = h.lists.eds e in
    let h' = update_ed e (λ ed. record ed { ed_skip = true; rm_next = h.ed_rm_list frame }) h in
    if deleting ed.state then h else record h' {
      sof = true;
      ed_rm_list = λ i. if i == frame then e else h.ed_rm_list i;
      cle = elim ed.kind [
        | control ↦ false
        | isochronous ↦ h.cle
        | interrupt ↦ h.cle
        | bulk ↦ h.cle
        | other_type ↦ h.cle
      ];
      ble = elim ed.kind [
        | bulk ↦ false
        | isochronous ↦ h.ble
        | interrupt ↦ h.ble
        | control ↦ h.ble
        | other_type ↦ h.ble
      ];
    }
