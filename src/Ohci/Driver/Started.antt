-- ===== src/Ohci/Driver/Started.antt =====
-- What `hc_found_ohci` of portable-ohci-core.c does once it is given memory and a bus.
use mathlib.Core.List.{append_assoc}
use ps2_side_dumper.Base.{
  ℕ, ◌+◌, ◌≡◌, ◌≢◌, refl, true, false, Option, none, some, List, [], ◌∷◌, arith, ◌==◌,
}
use ps2_side_dumper.LocalMem.{Mem}
use ps2_side_dumper.LocalMem.Grow.{Slots}
use ps2_side_dumper.LocalMem.Portable.{portable_allocate_ohci}
use ps2_side_dumper.Ohci.Controller.{control, hc_reset, hc_start}
use ps2_side_dumper.Ohci.Driver.{
  DriverCall, usb_alloc_bus, usb_register_bus, request_irq, freeiopheap, pm_register,
  install_dumper, writel, OhciDev, DriverState, put_ohci, call, FoundAnswers, zero_hc,
  hc_alloc_ohci, FoundCode, found_ok, found_enomem, found_enodev, found_ebusy, listed,
  hc_found_ohci,
}
use ps2_side_dumper.Ohci.Driver.Lifetime.{
  Holding, a_bus, registration, an_irq, the_dumper, takes, gives, total, total-append, held,
}

-- Memory and a bus are given: `o` is the address of the new `ohci_t`.
pub record Given (bus_to_virt : ℕ → ℕ) (k : FoundAnswers) (d : DriverState) (o bus : ℕ)
    (ps : List ℕ) (m : Mem) : Type 0 where
  pub memory : portable_allocate_ohci bus_to_virt k.grow k.heap d.mem ≡ some (o, ps, m)
  pub address : o ≢ 0
  pub slots : Slots m
  pub bus_given : k.new_bus ≡ some bus

-- The new controller, and the state in which it is in the list
abbrev pub first_dev : ℕ → ℕ → OhciDev
first_dev mem_base bus = record {
  regs = mem_base;
  bus = bus;
  root_hub = false;
  irq = none;
  hc = zero_hc;
}

abbrev pub last_dev : FoundAnswers → ℕ → ℕ → ℕ → OhciDev
last_dev k irq mem_base bus =
    let (ok, (hc, ws)) = hc_reset k.reset_hw zero_hc in
    let (begun, (hc', vs)) = hc_start k.start_hw (record hc { hc_control = 0 }) in
    record { regs = mem_base; bus = bus; root_hub = k.start_hw.alloc_dev; irq = some irq; hc = hc' }

abbrev pub alloc_state : ℕ → ℕ → ℕ → List ℕ → Mem → DriverState → DriverState
alloc_state mem_base o bus ps m d =
    call (usb_alloc_bus bus ∷ []) (
      put_ohci o (some (first_dev mem_base bus))
        (call (freeiopheap ps ∷ []) (record d { mem = m })))

abbrev pub list_state : ℕ → ℕ → ℕ → List ℕ → Mem → DriverState → DriverState
list_state mem_base o bus ps m d = record (alloc_state mem_base o bus ps m d) {
  ohci_hcd_list = o ∷ d.ohci_hcd_list;
}

module _ (bus_to_virt virt_to_bus : ℕ → ℕ) where
  hc_alloc_ohci_given :
      (k : FoundAnswers) (mem_base : ℕ) (d : DriverState) (o bus : ℕ) (ps : List ℕ) (m : Mem)
      → Given bus_to_virt k d o bus ps m
      → hc_alloc_ohci bus_to_virt virt_to_bus k mem_base d
        ≡ some (o, alloc_state mem_base o bus ps m d)
  unfolding hc_alloc_ohci
  hc_alloc_ohci_given k mem_base d o bus ps m g =
      let at : (o == 0) ≡ false = let n = g.address in ground (arith, n) in
      rw (g.memory, hc_alloc_ohci, at, g.bus_given) refl

  pub found_listed :
      (k : FoundAnswers) (irq mem_base : ℕ) (d : DriverState) (o bus : ℕ) (ps : List ℕ) (m : Mem)
      → Given bus_to_virt k d o bus ps m
      → hc_found_ohci bus_to_virt virt_to_bus k irq mem_base d
        ≡ listed bus_to_virt virt_to_bus k irq o
            (some (first_dev mem_base bus))
            (list_state mem_base o bus ps m d)
  unfolding hc_found_ohci
  found_listed k irq mem_base d o bus ps m g =
      let at : (o == 0) ≡ false = let n = g.address in ground (arith, n) in
      let self : (o == o) ≡ true = ground arith in
      rw (hc_alloc_ohci_given k mem_base d o bus ps m g, hc_found_ohci, at, self) refl

-- What a successful call asks for
abbrev pub found_calls : FoundAnswers → ℕ → ℕ → ℕ → List ℕ → List DriverCall
found_calls k irq o bus ps =
    let (ok, (hc, ws)) = hc_reset k.reset_hw zero_hc in
    let (begun, (hc', vs)) = hc_start k.start_hw (record hc { hc_control = 0 }) in
    freeiopheap ps
    ∷ usb_alloc_bus bus
    ∷ writel ws
    ∷ writel ((control, 0) ∷ [])
    ∷ usb_register_bus bus
    ∷ request_irq irq
    ∷ writel vs
    ∷ pm_register o
    ∷ install_dumper
    ∷ []

pub found_total :
    (k : FoundAnswers) (irq o bus : ℕ) (ps : List ℕ) (c : OhciDev) (r : Holding)
    → c.bus ≡ bus
    → c.irq ≡ some irq
    → (total (takes r) (found_calls k irq o bus ps) ≡ held r c)
      × (total (gives r) (found_calls k irq o bus ps) ≡ 0)
found_total k irq o bus ps c (a_bus b) e i = rw e (omega arith, omega arith)
found_total k irq o bus ps c (registration b) e i = rw e (omega arith, omega arith)
found_total k irq o bus ps c (an_irq j) e i = rw i (omega arith, omega arith)
found_total k irq o bus ps c the_dumper e i = (omega arith, omega arith)

-- The root hub is had, and the dumper was not installed before and is given its worker.
abbrev pub FirstWorker : FoundAnswers → DriverState → Type 0
FirstWorker k d = (k.start_hw.new_device ≡ true) × (d.pid_set ≡ false) × (k.thread_ok ≡ true)

-- A new controller is there: it is in memory and at the head of the list, and what was taken is what
-- it has to give back, and the dumper's worker is there.
abbrev pub Running : ℕ → DriverState → Option (FoundCode × DriverState) → Type 0
Running o d none = ⊥
Running o d (some (found_enomem, d')) = ⊥
Running o d (some (found_enodev, d')) = ⊥
Running o d (some (found_ebusy, d')) = ⊥
Running o d (some (found_ok, d')) =
    (c : OhciDev) × (d'.ohcis o ≡ some c)
    × (d'.ohci_hcd_list ≡ o ∷ d.ohci_hcd_list)
    × ((x : ℕ) → x ≢ o → d'.ohcis x ≡ d.ohcis x)
    × ((r : Holding)
        → (total (takes r) d'.calls ≡ total (takes r) d.calls + held r c)
          × (total (gives r) d'.calls ≡ total (gives r) d.calls))
    × Slots d'.mem
    × (d'.worker ≡ true)

module _ (bus_to_virt virt_to_bus : ℕ → ℕ) where
  -- Where memory, the bus, the reset, the interrupt, the root hub and the dumper's first worker are all
  -- had, `hc_found_ohci` returns 0.
  pub hc_found_ohci-Running :
      (k : FoundAnswers) (irq mem_base : ℕ) (d : DriverState) (o bus : ℕ) (ps : List ℕ) (m : Mem)
      → Given bus_to_virt k d o bus ps m
      → (hc_reset k.reset_hw zero_hc).0 ≡ true
      → k.irq_ok ≡ true
      → FirstWorker k d
      → Running o d (hc_found_ohci bus_to_virt virt_to_bus k irq mem_base d)
  unfolding hc_start
  hc_found_ohci-Running k irq mem_base d o bus ps m g reset irq_given (hub, fresh, thread) =
      let c : OhciDev = last_dev k irq mem_base bus in
      let self : (o == o) ≡ true = ground arith in
      rw
        (
          found_listed bus_to_virt virt_to_bus k irq mem_base d o bus ps m g,
          reset,
          irq_given,
          hub,
          fresh,
          thread,
        )
        (
          c,
          rw self refl,
          refl,
          λ x ne. let other : (x == o) ≡ false = ground (arith, ne) in rw other refl,
          λ r.
              let (taken, given) = found_total k irq o bus ps c r refl refl in
              let takes_all = total-append (takes r) d.calls (found_calls k irq o bus ps) in
              let gives_all = total-append (gives r) d.calls (found_calls k irq o bus ps) in
              (
                simp (append_assoc) (omega (arith, takes_all, taken)),
                simp (append_assoc) (omega (arith, gives_all, given)),
              ),
          g.slots,
          refl,
        )
