-- ===== src/Ohci/Driver/Tests.antt =====
-- Runs of the driver's start and end in portable-ohci-core.c.
use ps2_side_dumper.Base.{
  ℕ, ◌+◌, ◌-◌, refl, inl, true, false, none, some, [], ◌∷◌, arith, replicate,
}
use ps2_side_dumper.LocalMem.{Mem, block, grow_local_mem, store_slot}
use ps2_side_dumper.LocalMem.Portable.{portable_allocate_ohci}
use ps2_side_dumper.Ohci.Controller.{Hardware, hc_reset, wait_clear}
use ps2_side_dumper.Ohci.Driver.{
  OhciDev, DriverState, FoundAnswers, zero_hc, hc_found_ohci, ohci_hcd_cleanup,
}
use ps2_side_dumper.Ohci.Driver.Cleanup.{CleanedUp, ohci_hcd_cleanup-CleanedUp}
use ps2_side_dumper.Ohci.Driver.Started.{Given}
use ps2_side_dumper.Ohci.Driver.Found.{
  Undone, cleanup_after, ohci_hcd_cleanup-hc_found_ohci, DanglingOrWaits,
  hc_found_ohci-DanglingOrWaits,
}

abbrev mapped : ℕ → ℕ
mapped p = p + 0x1000

abbrev unmapped : ℕ → ℕ
unmapped p = p - 0x1000

-- A controller that no one owns and that comes out of its reset at once
abbrev idle : Hardware
idle = record {
  control_reads = λ _. 0;
  cmdstatus_reads = λ _. 0;
  roothub_a_read = 0;
  hcca_bus = 0x100;
  alloc_dev = true;
  new_device = true;
}

-- One that never leaves its reset
abbrev hanging : Hardware
hanging = record idle { cmdstatus_reads = λ _. 1 }

abbrev no_arena : Mem
no_arena = record {
  local_mems = replicate 16 0;
  nlocal_mems = 0;
  insufficient_local_mem = 0;
  free_list = [];
  alloc_list = [];
}

abbrev one_arena : Mem
one_arena = record no_arena {
  local_mems = 0x200 ∷ replicate 15 0;
  nlocal_mems = 1;
  free_list = block 0x1200 0x10000 ∷ [];
}

abbrev driver : DriverState
driver = record {
  mem = no_arena;
  pid_set = false;
  worker = false;
  ohcis = λ _. none;
  ohci_hcd_list = [];
  calls = [];
}

abbrev kernel : Hardware → FoundAnswers
kernel hw = record {
  grow = record { item_ok = true; heap = 0x200 };
  heap = 0x9000;
  new_bus = some 3;
  reset_hw = hw;
  start_hw = idle;
  release_hw = hw;
  irq_ok = true;
  thread_ok = true;
}

given : (hw : Hardware) → Given mapped (kernel hw) driver 0xa000 3 [] one_arena
unfolding portable_allocate_ohci grow_local_mem store_slot
given hw = record {
  memory = refl;
  address = omega arith;
  slots = record { slots = refl; used = omega arith };
  bus_given = refl;
}

ohci_hcd_cleanup-hc_found_ohci_example : Undone 0xa000 driver (
    cleanup_after mapped unmapped
      (λ _. idle)
      (hc_found_ohci mapped unmapped (kernel idle) 12 0x1600 driver))
unfolding hc_reset wait_clear
ohci_hcd_cleanup-hc_found_ohci_example =
    ohci_hcd_cleanup-hc_found_ohci mapped unmapped (λ _. idle) (kernel idle) 12 0x1600 driver 0xa000
      3 [] one_arena refl (given idle) refl refl (refl, refl, refl)

-- The dumper has the worker of another controller.
abbrev with_worker : DriverState
with_worker = record driver { pid_set = true; worker = true; ohci_hcd_list = 0xb000 ∷ [] }

given_second : Given mapped (kernel hanging) with_worker 0xa000 3 [] one_arena
given_second = record {
  memory = (given hanging).memory;
  address = omega arith;
  slots = record { slots = refl; used = omega arith };
  bus_given = refl;
}

hc_found_ohci-DanglingOrWaits_example :
    DanglingOrWaits mapped unmapped
      (λ _. idle)
      0xa000
      with_worker
      (hc_found_ohci mapped unmapped (kernel hanging) 12 0x1600 with_worker)
unfolding hc_reset wait_clear
hc_found_ohci-DanglingOrWaits_example =
    hc_found_ohci-DanglingOrWaits mapped unmapped (λ _. idle) (kernel hanging) 12 0x1600 with_worker
      0xa000 3 [] one_arena given_second (inl refl)

-- One controller in the list, and the dumper's worker
abbrev a_controller : OhciDev
a_controller = record { regs = 0x1600; bus = 3; root_hub = true; irq = some 12; hc = zero_hc }

abbrev one_controller : DriverState
one_controller = record driver {
  mem = one_arena;
  pid_set = true;
  worker = true;
  ohcis = λ _. some a_controller;
  ohci_hcd_list = 0xa000 ∷ [];
}

ohci_hcd_cleanup-CleanedUp_example :
    CleanedUp one_controller (0xa000 ∷ []) (ohci_hcd_cleanup unmapped (λ _. idle) one_controller)
ohci_hcd_cleanup-CleanedUp_example =
    ohci_hcd_cleanup-CleanedUp unmapped (λ _. idle) one_controller
      ((a_controller, refl), omega arith, tt, tt) (record { slots = refl; used = omega arith })
