-- ===== src/Ohci/Tests.antt =====
-- Runs of the models of portable-ohci-core.c.
use ps2_side_dumper.Base.{
  ℕ, zero, suc, ◌+◌, ◌%◌, ◌≤◌, ◌<◌, ◌≡◌, refl, true, false, none, List, [], ◌∷◌, length, replicate,
  get_or, arith,
}
use ps2_side_dumper.Usb.{bulk, control}
use ps2_side_dumper.Mini.{SetupPacket}
use ps2_side_dumper.Ohci.Branches.{num_ints, least_loaded, ep_int_ballance}
use ps2_side_dumper.Ohci.Branches.Loads.{added, ep_int_ballance-loads}
use ps2_side_dumper.Ohci.Hub.{HubRegs, rh_submit_urb}
use ps2_side_dumper.Ohci.Hub.Answers.{rh_submit_urb-fits}
use ps2_side_dumper.Ohci.Hub.Ports.{AllConnected, rh_submit_urb-Connected}
use ps2_side_dumper.Ohci.Transfer.{Transfer, td_size, td_submit_urb}
use ps2_side_dumper.Ohci.Transfer.Count.{td_submit_urb-td_size}
use ps2_side_dumper.Ohci.Controller.{Hc, Hardware}

abbrev loaded : List ℕ
loaded = 90 ∷ 0 ∷ replicate 30 70

ep_int_ballance-loads_example :
    ((ep_int_ballance loaded 8 40).0 < 8)
    × ((get_or (ep_int_ballance loaded 8 40).1 9 0
          ≡ get_or loaded 9 0 + added 8 40 (ep_int_ballance loaded 8 40).0 9)
        × (((ep_int_ballance loaded 8 40).0 ≡ least_loaded loaded num_ints 0 0 % 8)
            × (get_or loaded (least_loaded loaded num_ints 0 0) 0 ≤ get_or loaded 9 0)))
ep_int_ballance-loads_example = ep_int_ballance-loads loaded 8 40 9 (omega arith) refl (omega arith)

-- Two ports, of which the first has a device.
abbrev two_ports : ℕ → ℕ
two_ports zero = 0
two_ports (suc zero) = 0x10101
two_ports (suc (suc i)) = 0x100

abbrev hub_regs : HubRegs
hub_regs = record { a = 0x02000902; b = 0; status = 0; port_status = two_ports }

-- usb_root_hub_string in these runs: an empty string, whose descriptor is two bytes.
abbrev no_text : ℕ → ℕ → List ℕ
no_text id len = 2 ∷ 3 ∷ []

abbrev ask_string : SetupPacket
ask_string = record { requesttype = 0x80; request = 6; value = 0x301; index = 0; length = 255 }

abbrev reset_port : SetupPacket
reset_port = record { requesttype = 0x23; request = 3; value = 4; index = 1; length = 0 }

abbrev set_interface : SetupPacket
set_interface = record { requesttype = 1; request = 11; value = 0; index = 0; length = 0 }

rh_submit_urb-fits_example :
    (length (rh_submit_urb no_text hub_regs 1 255 ask_string).data_buf
        + length (rh_submit_urb no_text hub_regs 1 255 ask_string).in_place
      ≡ (rh_submit_urb no_text hub_regs 1 255 ask_string).len)
    × ((rh_submit_urb no_text hub_regs 1 255 ask_string).len ≤ 255)
rh_submit_urb-fits_example = rh_submit_urb-fits no_text hub_regs 1 255 ask_string (omega arith)

rh_submit_urb-Connected_example :
    AllConnected two_ports (rh_submit_urb no_text hub_regs 1 0 reset_port).writes
rh_submit_urb-Connected_example = rh_submit_urb-Connected no_text hub_regs 1 0 reset_port

abbrev bulk_in : Transfer
bulk_in = record { kind = bulk; out = false; transfer_buffer_length = 10000; packets = [] }

abbrev long_control : Transfer
long_control = record { kind = control; out = false; transfer_buffer_length = 5000; packets = [] }

td_submit_urb-td_size_example : length (td_submit_urb true bulk_in) ≡ td_size bulk_in
td_submit_urb-td_size_example = td_submit_urb-td_size true bulk_in (λ e. ground (arith, e))

abbrev hc : Hc
hc = record {
  disabled = 1;
  hc_control = 0;
  rh_devnum = 0;
  ohci_int_load = replicate 32 0;
  int_table = replicate 32 0;
  ed_rm_list = (none, none);
  ed_isotail = none;
  ed_controltail = none;
  ed_bulktail = none;
}

-- No BIOS owns the controller, and its reset bit clears at once.
abbrev idle : Hardware
idle = record {
  control_reads = λ i. 0;
  cmdstatus_reads = λ i. 0;
  roothub_a_read = 0x02000902;
  hcca_bus = 0x100;
  alloc_dev = true;
  new_device = true;
}
