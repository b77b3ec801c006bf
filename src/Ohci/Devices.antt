-- ===== src/Ohci/Devices.antt =====
-- The private part of a device in portable-ohci-core.c: `sohci_alloc_dev` and `sohci_free_dev`, with
-- `Portable_AllocateDevice` and `Portable_FreeDevice` of portable-ohci-ps2.c. The part is named by its
-- address, 0 for NULL; `eds_at` says where its i-th endpoint descriptor lies. ps2sif_allociopheap and
-- the two address translations are arguments, and so is what happens while `sohci_free_dev` sleeps.
pub mod Round
pub mod Deleted
pub mod Fresh
mod Tests
use ps2_side_dumper.Base.{
  ℕ, zero, suc, ◌+◌, Bool, true, false, Option, none, some, List, [], ◌∷◌, ltb, ◌==◌, if◌then◌else◌,
}
use ps2_side_dumper.Usb.{isochronous}
use ps2_side_dumper.Ohci.Endpoints.{Ed, Eds, Lists, ed_new, ed_del, update, ep_unlink}
use ps2_side_dumper.Ohci.Submit.{Host, is_new, is_oper, update_ed, ep_rm_ed}

abbrev pub num_eds : ℕ
num_eds = 32

-- A descriptor of which every byte is 0
abbrev pub zero_ed : Ed
zero_ed = record {
  kind = isochronous;
  state = ed_new;
  ed_skip = false;
  hw_info = 0;
  hw_head = 0;
  halted = false;
  hw_tail = 0;
  hw_next_ed = 0;
  ed_prev = 0;
  int_period = 0;
  int_branch = 0;
  int_load = 0;
  int_interval = 0;
  last_iso = 0;
  rm_next = 0;
}

-- The addresses of the descriptors from the i-th on
abbrev pub eds_from : (ℕ → ℕ) → ℕ → ℕ → List ℕ
eds_from eds_at i zero = []
eds_from eds_at i (suc left) = eds_at i ∷ eds_from eds_at (i + 1) left

-- What memset leaves of them
unfoldable pub clear_eds : List ℕ → Eds → Eds
clear_eds [] eds = eds
clear_eds (e ∷ es) eds = clear_eds es (update eds e (λ _. zero_ed))

-- `Portable_AllocateDevice`, by what the heap of the IOP returns
unfoldable pub portable_allocate_device : (ℕ → ℕ) → ℕ → ℕ
portable_allocate_device bus_to_virt heap = if heap == 0 then 0 else bus_to_virt heap

-- `Portable_FreeDevice`: what is given to ps2sif_freeiopheap
unfoldable pub portable_free_device : (ℕ → ℕ) → ℕ → Option ℕ
portable_free_device virt_to_bus dev = if dev == 0 then none else some (virt_to_bus dev)

-- `sohci_alloc_dev`: the part, or none for -ENOMEM
unfoldable pub sohci_alloc_dev : (ℕ → ℕ) → (ℕ → ℕ → ℕ) → ℕ → Host → Option ℕ × Host
sohci_alloc_dev bus_to_virt eds_at heap h =
    let dev = portable_allocate_device bus_to_virt heap in
    let eds = clear_eds (eds_from (eds_at dev) 0 num_eds) h.lists.eds in
    if dev == 0 then (none, h) else (some dev, record h { lists = record h.lists { eds = eds } })

abbrev pub mark_del : ℕ → Host → Host
mark_del e h = update_ed e (λ ed. record ed { state = ed_del }) h

abbrev pub removed_ed : ℕ → Host → Option Lists → Option Host
removed_ed e h none = none
removed_ed e h (some lists) = some (mark_del e (ep_rm_ed e (record h { lists = lists })))

-- One round of the loop for a descriptor that is not new
unfoldable pub free_ed : ℕ → ℕ → Host → Option Host
free_ed fuel e h =
    removed_ed e h
      (if is_oper (h.lists.eds e).state then ep_unlink fuel e h.lists else some h.lists)

-- The loop of `sohci_free_dev`, and its count
unfoldable pub free_eds : ℕ → List ℕ → ℕ → Host → Option (Host × ℕ)
free_eds fuel [] cnt h = some (h, cnt)
free_eds fuel (e ∷ es) cnt h = elim (is_new (h.lists.eds e).state) [
  | true ↦ free_eds fuel es cnt h
  | false ↦ elim (free_ed fuel e h) [ none ↦ none | some h' ↦ free_eds fuel es (cnt + 1) h' ]
]

-- What `sohci_free_dev` leaves: whether it has slept, and the address given back
pub record FreedDev : Type 0 where
  pub host : Host
  pub slept : Bool
  pub freed : Option ℕ

abbrev pub after_eds : (ℕ → ℕ) → (Host → Host) → ℕ → Option (Host × ℕ) → Option FreedDev
after_eds virt_to_bus meanwhile dev none = none
after_eds virt_to_bus meanwhile dev (some (h, cnt)) =
    let h' = record h { usb_ed_lock = false } in
    let slept = ltb 0 cnt in
    some (record {
      host = if slept then meanwhile h' else h';
      slept = slept;
      freed = portable_free_device virt_to_bus dev;
    })

-- `sohci_free_dev` for a device whose number is negative or not; it waits for a lock that is held.
unfoldable pub sohci_free_dev :
    ℕ → (ℕ → ℕ) → (ℕ → ℕ → ℕ) → (Host → Host) → ℕ → Bool → Host → Option FreedDev
sohci_free_dev fuel virt_to_bus eds_at meanwhile dev numbered h =
    if dev == 0
    then some (record { host = h; slept = false; freed = none })
    else if numbered
    then (if h.usb_ed_lock
        then none
        else after_eds virt_to_bus meanwhile dev
            (free_eds fuel (eds_from (eds_at dev) 0 num_eds) 0 (record h { usb_ed_lock = true })))
    else some (record { host = h; slept = false; freed = portable_free_device virt_to_bus dev })
