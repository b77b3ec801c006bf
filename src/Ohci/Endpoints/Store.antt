-- ===== src/Ohci/Endpoints/Store.antt =====
-- Endpoint descriptors in memory, and the part of `ohci_t` that holds their lists, for `ep_link` and
-- `ep_unlink` of portable-ohci-core.c. A descriptor is named by its address; its bus address is
-- taken for the same number, as bus_to_virt and virt_to_bus undo each other. 0 is NULL.
use ps2_side_dumper.Base.{ℕ, Bool, true, false, List, ◌==◌, if◌then◌else◌}
use ps2_side_dumper.Usb.{PipeType}

-- The state of an endpoint: its four flags, all off in ED_NEW.
pub record EdState : Type 0 where
  pub unlink : Bool
  pub oper : Bool
  pub del : Bool
  pub urb_del : Bool

abbrev pub ed_new : EdState
ed_new = record { unlink = false; oper = false; del = false; urb_del = false }

abbrev pub ed_unlink : EdState
ed_unlink = record { unlink = true; oper = false; del = false; urb_del = false }

abbrev pub ed_oper : EdState
ed_oper = record { unlink = false; oper = true; del = false; urb_del = false }

abbrev pub ed_del : EdState
ed_del = record { unlink = false; oper = false; del = true; urb_del = false }

-- `ed_t`. Of hwINFO only the flag OHCI_ED_SKIP is kept apart from the other fields, and
-- of the flags in the lowest bits of hwHeadP only the one that says that the queue is halted.
pub record Ed : Type 0 where
  pub kind : PipeType
  pub state : EdState
  pub ed_skip : Bool
  pub hw_info : ℕ
  pub hw_head : ℕ
  pub halted : Bool
  pub hw_tail : ℕ
  pub hw_next_ed : ℕ
  pub ed_prev : ℕ
  pub int_period : ℕ
  pub int_branch : ℕ
  pub int_load : ℕ
  pub int_interval : ℕ
  pub last_iso : ℕ
  pub rm_next : ℕ

-- Memory as the driver reads it: there are contents at every address, also at 0.
abbrev pub Eds : Type 0
Eds = ℕ → Ed

abbrev pub update : Eds → ℕ → (Ed → Ed) → Eds
update eds e f = λ x. if x == e then f (eds x) else eds x

-- The lists: the two head registers, the tails, the 32 entries of the hcca's table, and the loads.
pub record Lists : Type 0 where
  pub eds : Eds
  pub ed_controlhead : ℕ
  pub ed_controltail : ℕ
  pub ed_bulkhead : ℕ
  pub ed_bulktail : ℕ
  pub ed_isotail : ℕ
  pub int_table : List ℕ
  pub ohci_int_load : List ℕ

abbrev pub set_next : ℕ → Ed → Ed
set_next n ed = record ed { hw_next_ed = n }

abbrev pub set_prev : ℕ → Ed → Ed
set_prev p ed = record ed { ed_prev = p }
