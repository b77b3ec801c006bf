-- ===== src/Ohci/Controller.antt =====
-- Starting and stopping the host controller in portable-ohci-core.c: `hc_reset`, `hc_start`,
-- `hc_reinit_ohci` and `handle_pm_event`. A register is read as often as the code reads it: the
-- n-th read is an argument. The delays and the messages are left out, and so is what connecting
-- the root hub makes of the driver's state: usb_alloc_dev and usb_new_device, which are not part
-- of this repository, are known here by their results.
pub mod Power
use ps2_side_dumper.Base.{
  ℕ, zero, suc, ◌+◌, ◌*◌, ◌/◌, ◌-◌, Bool, true, false, ◌&&◌, Option, none, some, List, [], ◌∷◌,
  ◌++◌, replicate, bit_and, bit_or, ◌==◌, if◌then◌else◌,
}
use ps2_side_dumper.Ohci.Branches.{num_ints}

pub data Register : Type 0 where
  control cmdstatus intrstatus intrenable intrdisable : Register
  hcca ed_controlhead ed_bulkhead fminterval periodicstart lsthresh : Register
  roothub_a roothub_status : Register

-- A write of a register
abbrev pub Writes : Type 0
Writes = List (Register × ℕ)

-- The part of `ohci_t` that these functions change. The endpoint descriptors are named by numbers.
pub record Hc : Type 0 where
  pub disabled : ℕ
  pub hc_control : ℕ
  pub rh_devnum : ℕ
  pub ohci_int_load : List ℕ
  pub int_table : List ℕ
  pub ed_rm_list : Option ℕ × Option ℕ
  pub ed_isotail : Option ℕ
  pub ed_controltail : Option ℕ
  pub ed_bulktail : Option ℕ

-- What the registers read as, the address of the hcca for the controller, and whether
-- usb_alloc_dev and usb_new_device succeed.
pub record Hardware : Type 0 where
  pub control_reads : ℕ → ℕ
  pub cmdstatus_reads : ℕ → ℕ
  pub roothub_a_read : ℕ
  pub hcca_bus : ℕ
  pub alloc_dev : Bool
  pub new_device : Bool

abbrev pub is_set : ℕ → ℕ → Bool
is_set word mask = elim (bit_and word mask == 0) [ true ↦ false | false ↦ true ]

-- The two waiting loops of `hc_reset`, from the i-th read on: while the bit is set the counter goes
-- down, and at 0 the loop gives up.
unfoldable pub wait_clear : (ℕ → ℕ) → ℕ → ℕ → ℕ → Bool
wait_clear reads mask i zero = false
wait_clear reads mask i (suc timeout) =
    let rest = wait_clear reads mask (i + 1) timeout in if is_set (reads i) mask then rest else true

abbrev pub reset_writes : Writes
reset_writes = (intrdisable, 0x80000000) ∷ (control, 0) ∷ (cmdstatus, 1) ∷ []

-- `hc_reset`: whether it returns 0, the new state, and the writes
unfoldable pub hc_reset : Hardware → Hc → Bool × (Hc × Writes)
hc_reset hw s =
    let owned = is_set (hw.control_reads 0) 0x100 in
    let asked = if owned then (cmdstatus, 8) ∷ [] else [] in
    if (if owned then wait_clear hw.control_reads 0x100 1 50 else true)
    then (if wait_clear hw.cmdstatus_reads 1 0 30
        then (true, (record s { disabled = 0 }, asked ++ reset_writes))
        else (false, (s, asked ++ reset_writes)))
    else (false, (s, asked))

-- OHCI_CONTROL_INIT | OHCI_USB_OPER
abbrev pub running : ℕ
running = 0xbf

-- With OHCI_USE_NPS: the bit RH_A_NPS is set and RH_A_PSM cleared in `roothub.a`.
abbrev pub start_writes : ℕ → ℕ → Writes
start_writes hcca_bus a =
    (ed_controlhead, 0)
    ∷ (ed_bulkhead, 0)
    ∷ (hcca, hcca_bus)
    ∷ (periodicstart, 0x2edf * 9 / 10)
    ∷ (fminterval, bit_or 0x2edf ((0x2edf - 210) * 6 / 7 * 0x10000))
    ∷ (lsthresh, 0x628)
    ∷ (control, running)
    ∷ (intrenable, 0x80000013)
    ∷ (intrstatus, 0x80000013)
    ∷ (roothub_a, bit_and (bit_or a 0x200) 0xfffffeff)
    ∷ (roothub_status, 0x10000)
    ∷ []

-- `hc_start`
unfoldable pub hc_start : Hardware → Hc → Bool × (Hc × Writes)
hc_start hw s = (
  hw.alloc_dev && hw.new_device,
  (record s { hc_control = running; rh_devnum = 0 }, start_writes hw.hcca_bus hw.roothub_a_read),
)

-- `hc_reinit_ohci`
unfoldable pub hc_reinit_ohci : Hc → Hc
hc_reinit_ohci s = record s {
  ohci_int_load = replicate num_ints 0;
  int_table = replicate num_ints 0;
  ed_rm_list = (none, none);
  ed_isotail = none;
  ed_controltail = none;
  ed_bulktail = none;
}

-- A power management request
pub data PmRequest : Type 0 where
  pm_suspend pm_resume other_request : PmRequest

-- The reads of `hc_reset` that follow the read of `handle_pm_event`
abbrev pub later : Hardware → Hardware
later hw = record hw { control_reads = λ i. hw.control_reads (i + 1) }

-- Lost power: the lists are reset and the controller is started again.
unfoldable pub restart : Hardware → Hc → Hc × Writes
restart hw s =
    let (ok, (s', ws)) = hc_reset (later hw) (hc_reinit_ohci (record s { disabled = 1 })) in
    let (started, (s'', vs)) = hc_start hw s' in
    if ok
    then (if started then (s'', ws ++ vs) else (record s'' { disabled = 1 }, ws ++ vs))
    else (record s' { disabled = 1 }, ws)

-- `handle_pm_event`: the functional state is 0 for OHCI_USB_RESET, 0x40 for OHCI_USB_RESUME, 0xc0
-- for OHCI_USB_SUSPEND.
unfoldable pub handle_pm_event : Hardware → PmRequest → Hc → Hc × Writes
handle_pm_event hw pm_suspend s = (record s { hc_control = 0xc0 }, (control, 0xc0) ∷ [])
handle_pm_event hw pm_resume s =
    let now = hw.control_reads 0 in
    let read = record s { hc_control = now } in
    let state = bit_and now 0xc0 in
    if state == 0
    then restart hw read
    else if state == 0xc0
    then (record s { hc_control = running }, (control, 0x40) ∷ (control, running) ∷ [])
    else if state == 0x40
    then (record s { hc_control = running }, (control, 0x40) ∷ (control, running) ∷ [])
    else (read, [])
handle_pm_event hw other_request s = (s, [])
