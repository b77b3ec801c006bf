-- ===== src/Ohci/Driver.antt =====
-- The life of a controller in portable-ohci-core.c: `hc_alloc_ohci`, `hc_found_ohci`, `hc_release_ohci`
-- and `ohci_hcd_cleanup`. A controller is named by the address of its `ohci_t`; an address with no
-- contents is freed memory, and code that reads it has no result here. The calls of functions that
-- are not part of this repository are recorded with their arguments, and what they return is an
-- argument; what they do to the driver's state is left out, and so are the delays and messages. A wait
-- that never ends has no result either.
pub mod Lifetime
pub mod Cleanup
pub mod Started
pub mod Found
mod Tests
use ps2_side_dumper.Base.{
  ℕ, Bool, true, false, Option, none, some, List, [], ◌∷◌, ◌++◌, replicate, ◌==◌, if◌then◌else◌,
}
use ps2_side_dumper.LocalMem.{Mem, GrowAnswer}
use ps2_side_dumper.LocalMem.Portable.{portable_allocate_ohci, portable_free_ohci}
use ps2_side_dumper.Ohci.Branches.{num_ints}
use ps2_side_dumper.Ohci.Endpoints.Spec.{contains}
use ps2_side_dumper.Ohci.Controller.{Register, control, Writes, Hc, Hardware, hc_reset, hc_start}

-- What the driver asks of the kernel and of the dumper
pub data DriverCall : Type 0 where
  usb_free_dev usb_alloc_bus usb_register_bus usb_deregister_bus usb_free_bus usb_disconnect :
      ℕ → DriverCall
  request_irq free_irq : ℕ → DriverCall
  iounmap : ℕ → DriverCall
  freeiopheap : List ℕ → DriverCall
  pm_register : ℕ → DriverCall
  pm_unregister_all install_dumper remove_dumper : DriverCall
  writel : Writes → DriverCall

-- `ohci_t`: its registers' address, its bus and whether that has a root hub, and `irq` (none for -1)
pub record OhciDev : Type 0 where
  pub regs : ℕ
  pub bus : ℕ
  pub root_hub : Bool
  pub irq : Option ℕ
  pub hc : Hc

-- The driver's state, and of the dumper's thread (Dumper/Worker): whether `Thread.pid` is set, and whether
-- a worker is there that has not been told to end.
pub record DriverState : Type 0 where
  pub mem : Mem
  pub pid_set : Bool
  pub worker : Bool
  pub ohcis : ℕ → Option OhciDev
  pub ohci_hcd_list : List ℕ
  pub calls : List DriverCall

abbrev pub put_ohci : ℕ → Option OhciDev → DriverState → DriverState
put_ohci o c d = record d { ohcis = λ x. if x == o then c else d.ohcis x }

abbrev pub call : List DriverCall → DriverState → DriverState
call cs d = record d { calls = d.calls ++ cs }

-- What the kernel and the hardware answer while a controller is set up. `reset_hw` is read by the
-- first `hc_reset`, `start_hw` by `hc_start`, and `release_hw` by the `hc_reset` of `hc_release_ohci`;
-- `thread_ok` is whether kernel_thread gives the dumper its worker.
pub record FoundAnswers : Type 0 where
  pub grow : GrowAnswer
  pub heap : ℕ
  pub new_bus : Option ℕ
  pub reset_hw : Hardware
  pub start_hw : Hardware
  pub release_hw : Hardware
  pub irq_ok : Bool
  pub thread_ok : Bool

-- What `hc_found_ohci` returns
pub data FoundCode : Type 0 where
  found_ok found_enomem found_enodev found_ebusy : FoundCode

abbrev pub found : FoundCode → Option DriverState → Option (FoundCode × DriverState)
found code none = none
found code (some d) = some (code, d)

-- The state after memset; OHCI_USB_RESET is 0.
abbrev pub zero_hc : Hc
zero_hc = record {
  disabled = 0;
  hc_control = 0;
  rh_devnum = 0;
  ohci_int_load = replicate num_ints 0;
  int_table = replicate num_ints 0;
  ed_rm_list = (none, none);
  ed_isotail = none;
  ed_controltail = none;
  ed_bulktail = none;
}

abbrev pub irq_calls : Option ℕ → List DriverCall
irq_calls none = []
irq_calls (some irq) = free_irq irq ∷ []

-- The calls of `hc_release_ohci` before it frees the memory
abbrev pub release_calls : Hardware → OhciDev → List DriverCall
release_calls hw c =
    let (ok, (hc, ws)) = hc_reset hw c.hc in
    (if c.root_hub then usb_disconnect c.bus ∷ [] else [])
    ++ (writel (ws ++ ((control, 0) ∷ []))
        ∷ (irq_calls c.irq
            ++ (usb_deregister_bus c.bus ∷ usb_free_bus c.bus ∷ iounmap c.regs ∷ [])))

module _ (virt_to_bus : ℕ → ℕ) where
  abbrev pub free_memory : ℕ → DriverState → Option (List ℕ × Mem) → Option DriverState
  free_memory o d none = none
  free_memory o d (some (ps, m)) =
      let d' = call (freeiopheap ps ∷ []) (record d { mem = m }) in
      some (if contains (virt_to_bus o) ps then put_ohci o none d' else d')

  -- `SideDumper_RemoveDumper` tells the worker to end and waits until it does. Without a worker, as none
  -- was installed or an earlier removal has ended it, nothing ever signals the semaphore.
  abbrev pub remove_worker : Option DriverState → Option DriverState
  remove_worker none = none
  remove_worker (some d) =
      if d.worker then some (call (remove_dumper ∷ []) (record d { worker = false })) else none

  abbrev pub release_dev : Hardware → ℕ → Option OhciDev → DriverState → Option DriverState
  release_dev hw o none d = none
  release_dev hw o (some c) d =
      remove_worker
        (free_memory o (call (release_calls hw c) d) (portable_free_ohci virt_to_bus o d.mem))

  -- `hc_release_ohci`
  unfoldable pub hc_release_ohci : Hardware → ℕ → DriverState → Option DriverState
  hc_release_ohci hw o d = release_dev hw o (d.ohcis o) d

  -- The loop of `ohci_hcd_cleanup`; `hws` has what the hardware answers for each controller.
  unfoldable pub cleanup_list : (ℕ → Hardware) → List ℕ → DriverState → Option DriverState
  cleanup_list hws [] d = some d
  cleanup_list hws (o ∷ os) d = elim (hc_release_ohci (hws o) o (record d { ohci_hcd_list = os })) [
    | none ↦ none
    | some d' ↦ cleanup_list hws os d'
  ]

  -- `ohci_hcd_cleanup`
  unfoldable pub ohci_hcd_cleanup : (ℕ → Hardware) → DriverState → Option DriverState
  ohci_hcd_cleanup hws d = cleanup_list hws d.ohci_hcd_list (call (pm_unregister_all ∷ []) d)

module _ (bus_to_virt virt_to_bus : ℕ → ℕ) where
  abbrev pub with_bus : FoundAnswers → ℕ → ℕ → DriverState → Option ℕ → Option (ℕ × DriverState)
  with_bus k mem_base o d none = elim (portable_free_ohci virt_to_bus o d.mem) [
    | none ↦ none
    | some (ps, m) ↦ some (0, call (freeiopheap ps ∷ []) (record d { mem = m }))
  ]
  with_bus k mem_base o d (some bus) = some (
    o,
    call (usb_alloc_bus bus ∷ []) (
        put_ohci o
          (some (record { regs = mem_base; bus = bus; root_hub = false; irq = none; hc = zero_hc }))
          d),
  )

  -- `hc_alloc_ohci`: 0 for NULL
  unfoldable pub hc_alloc_ohci : FoundAnswers → ℕ → DriverState → Option (ℕ × DriverState)
  hc_alloc_ohci k mem_base d = elim (portable_allocate_ohci bus_to_virt k.grow k.heap d.mem) [
    | none ↦ none
    | some (o, ps, m) ↦
        let d' = call (freeiopheap ps ∷ []) (record d { mem = m }) in
        if o == 0 then some (0, d') else with_bus k mem_base o d' k.new_bus
  ]

  -- `SideDumper_InstallDumper`, of which only the thread counts here: it is refused while a pid is set,
  -- which no removal takes back, and the pid stays 0 where the thread is not given.
  abbrev pub install_worker : Bool → DriverState → DriverState
  install_worker thread_ok d =
      call (install_dumper ∷ [])
        (if d.pid_set then d else record d { pid_set = thread_ok; worker = thread_ok })

  -- The end of `hc_start`: a root hub that usb_new_device refuses is freed, but stays the bus's root hub.
  abbrev pub hub_calls : Hardware → ℕ → List DriverCall
  hub_calls hw bus =
      if hw.new_device then [] else if hw.alloc_dev then usb_free_dev bus ∷ [] else []

  -- The interrupt was given: the controller is started, and the dumper installed.
  abbrev pub start_dev : FoundAnswers → ℕ → ℕ → OhciDev → DriverState → DriverState
  start_dev k irq o c d =
      let (ok, (hc, ws)) = hc_start k.start_hw c.hc in
      install_worker k.thread_ok (
        call (request_irq irq ∷ writel ws ∷ (hub_calls k.start_hw c.bus ++ (pm_register o ∷ []))) (
          put_ohci o (some (record c { irq = some irq; root_hub = k.start_hw.alloc_dev; hc = hc }))
            d))

  -- The controller is reset: its bus is registered and its interrupt asked for.
  abbrev pub after_reset :
      FoundAnswers → ℕ → ℕ → OhciDev → DriverState → Option (FoundCode × DriverState)
  after_reset k irq o c d =
      let c' = record c { hc = record c.hc { hc_control = 0 } } in
      let d' =
        call (writel ((control, 0) ∷ []) ∷ usb_register_bus c.bus ∷ []) (put_ohci o (some c') d) in
      if k.irq_ok
      then some (found_ok, start_dev k irq o c' d')
      else found found_ebusy (hc_release_ohci virt_to_bus k.release_hw o d')

  abbrev pub listed :
      FoundAnswers → ℕ → ℕ → Option OhciDev → DriverState → Option (FoundCode × DriverState)
  listed k irq o none d = none
  listed k irq o (some c) d =
      let (ok, (hc, ws)) = hc_reset k.reset_hw c.hc in
      let c' = record c { hc = hc } in
      let d' = call (writel ws ∷ []) (put_ohci o (some c') d) in
      if ok
      then after_reset k irq o c' d'
      else found found_enodev (hc_release_ohci virt_to_bus k.release_hw o d')

  -- `hc_found_ohci`. The new controller is put at the head of the list.
  unfoldable pub hc_found_ohci :
      FoundAnswers → ℕ → ℕ → DriverState → Option (FoundCode × DriverState)
  hc_found_ohci k irq mem_base d = elim (hc_alloc_ohci k mem_base d) [
    | none ↦ none
    | some (o, d') ↦
        if o == 0
        then some (found_enomem, d')
        else listed k irq o (d'.ohcis o) (record d' { ohci_hcd_list = o ∷ d'.ohci_hcd_list })
  ]
