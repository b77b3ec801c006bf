-- ===== src/Ohci/Devices/Fresh.antt =====
-- A device of portable-ohci-core.c that is given up before any of its endpoints was used.
use ps2_side_dumper.Base.{ℕ, ◌≡◌, ◌≢◌, refl, Bool, true, false, some, List, [], ◌∷◌, arith, ◌==◌}
use ps2_side_dumper.Ohci.Endpoints.{Eds, update}
use ps2_side_dumper.Ohci.Submit.{Host, is_new}
use ps2_side_dumper.Ohci.Devices.{
  num_eds, zero_ed, eds_from, clear_eds, portable_allocate_device, portable_free_device,
  sohci_alloc_dev, free_eds, sohci_free_dev,
}

-- The descriptors are all new.
abbrev AllNew : Eds → List ℕ → Type 0
AllNew eds [] = Unit
AllNew eds (e ∷ es) = (is_new (eds e).state ≡ true) × AllNew eds es

clear_eds_keeps :
    (es : List ℕ) (eds : Eds) (x : ℕ)
    → is_new (eds x).state ≡ true
    → is_new (clear_eds es eds x).state ≡ true
unfolding clear_eds
clear_eds_keeps [] eds x h = h
clear_eds_keeps (e ∷ es) eds x h = clear_eds_keeps es (update eds e (λ _. zero_ed)) x (ground arith)

AllNew-mono :
    (es : List ℕ) (eds eds' : Eds)
    → ((x : ℕ) → is_new (eds x).state ≡ true → is_new (eds' x).state ≡ true)
    → AllNew eds es
    → AllNew eds' es
AllNew-mono [] eds eds' f h = tt
AllNew-mono (e ∷ es) eds eds' f h = (f e h.0, AllNew-mono es eds eds' f h.1)

clear_eds-AllNew : (es : List ℕ) (eds : Eds) → AllNew (clear_eds es eds) es
unfolding clear_eds
clear_eds-AllNew [] eds = tt
clear_eds-AllNew (e ∷ es) eds = (
  clear_eds_keeps es (update eds e (λ _. zero_ed)) e (ground arith),
  clear_eds-AllNew es (update eds e (λ _. zero_ed)),
)

free_eds_new :
    (fuel : ℕ) (es : List ℕ) (cnt : ℕ) (h : Host)
    → AllNew h.lists.eds es
    → free_eds fuel es cnt h ≡ some (h, cnt)
unfolding free_eds
free_eds_new fuel [] cnt h new = refl
free_eds_new fuel (e ∷ es) cnt h new = rw (new.0, free_eds) (free_eds_new fuel es cnt h new.1)

-- What `sohci_alloc_dev` leaves in memory
abbrev cleared : (ℕ → ℕ → ℕ) → ℕ → Host → Host
cleared eds_at dev h = record h {
  lists = record h.lists { eds = clear_eds (eds_from (eds_at dev) 0 num_eds) h.lists.eds };
}

alloc_lem :
    (bus_to_virt : ℕ → ℕ) (eds_at : ℕ → ℕ → ℕ) (heap : ℕ) (h : Host)
    → heap ≢ 0
    → bus_to_virt heap ≢ 0
    → sohci_alloc_dev bus_to_virt eds_at heap h
      ≡ (some (bus_to_virt heap), cleared eds_at (bus_to_virt heap) h)
unfolding sohci_alloc_dev portable_allocate_device
alloc_lem bus_to_virt eds_at heap h set mapped =
    let given : (heap == 0) ≡ false = ground (arith, set) in
    let found : (bus_to_virt heap == 0) ≡ false = ground (arith, mapped) in rw (given, found) refl

free_lem :
    (fuel : ℕ) (virt_to_bus : ℕ → ℕ) (eds_at : ℕ → ℕ → ℕ) (meanwhile : Host → Host) (dev heap : ℕ)
    (numbered : Bool) (h : Host)
    → dev ≢ 0
    → virt_to_bus dev ≡ heap
    → h.usb_ed_lock ≡ false
    → AllNew h.lists.eds (eds_from (eds_at dev) 0 num_eds)
    → sohci_free_dev fuel virt_to_bus eds_at meanwhile dev numbered h
      ≡ some (record { host = h; slept = false; freed = some heap })
unfolding sohci_free_dev portable_free_device
free_lem fuel virt_to_bus eds_at meanwhile dev heap numbered h found back free new =
    let mapped : (dev == 0) ≡ false = ground (arith, found) in
    let loop =
      free_eds_new fuel (eds_from (eds_at dev) 0 num_eds) 0 (record h { usb_ed_lock = true }) new in
    ground (arith, mapped, loop)

-- A device whose endpoints are not used between `sohci_alloc_dev` and `sohci_free_dev` is given back
-- at once, at the address that the heap of the IOP returned, with no sleep and nothing else changed.
pub sohci_free_dev-sohci_alloc_dev :
    (fuel : ℕ) (bus_to_virt virt_to_bus : ℕ → ℕ) (eds_at : ℕ → ℕ → ℕ) (meanwhile : Host → Host)
    (heap : ℕ) (numbered : Bool) (h : Host)
    → heap ≢ 0
    → bus_to_virt heap ≢ 0
    → virt_to_bus (bus_to_virt heap) ≡ heap
    → h.usb_ed_lock ≡ false
    → let (dev, h') = sohci_alloc_dev bus_to_virt eds_at heap h in
      (dev ≡ some (bus_to_virt heap))
      × (sohci_free_dev fuel virt_to_bus eds_at meanwhile (bus_to_virt heap) numbered h'
          ≡ some (record { host = h'; slept = false; freed = some heap }))
sohci_free_dev-sohci_alloc_dev fuel bus_to_virt virt_to_bus eds_at meanwhile heap numbered h set
      mapped back free =
    let dev = bus_to_virt heap in
    let eds = eds_from (eds_at dev) 0 num_eds in
    rw (alloc_lem bus_to_virt eds_at heap h set mapped) (
      refl,
      free_lem fuel virt_to_bus eds_at meanwhile dev heap numbered (cleared eds_at dev h) mapped
          back free (clear_eds-AllNew eds h.lists.eds),
    )
