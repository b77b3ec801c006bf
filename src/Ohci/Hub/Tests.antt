-- ===== src/Ohci/Hub/Tests.antt =====
-- Runs of the root hub's timer in portable-ohci-core.c.
use ps2_side_dumper.Base.{
  ℕ, zero, suc, ◌+◌, ◌≡◌, refl, true, false, none, some, List, [], ◌∷◌, ◌++◌, arith,
}
use ps2_side_dumper.Ohci.Hub.{HubRegs}
use ps2_side_dumper.Ohci.Hub.Irq.{rh_send_irq}
use ps2_side_dumper.Ohci.Hub.Reports.{status_change, report_of, rh_send_irq-Reports}
use ps2_side_dumper.Ohci.Hub.Timer.{
  RootHub, IntUrb, delay, rh_submit_int_urb, rh_int_timer_do, rh_unlink_urb, rh_init_int_timer,
}
use ps2_side_dumper.Ohci.Hub.Polled.{
  leaves_hub, submits, unlinks, HubReach, here, next, IsPolled, polling, reports,
  rh_int_timer_do-Polls, rh_int_timer_do-unlinked,
}

-- Two ports; a device was connected at the second.
abbrev port_regs : ℕ → ℕ
port_regs zero = 0
port_regs (suc zero) = 0x100
port_regs (suc (suc i)) = 0x10101

abbrev regs : HubRegs
regs = record { a = 0x02000902; b = 0; status = 0; port_status = port_regs }

abbrev int_urb : IntUrb
int_urb = record { name = 7; interval = 255; buffer_length = 2 }

abbrev quiet_hub : RootHub
quiet_hub = record {
  disabled = false;
  urb = none;
  send = false;
  interval = 0;
  rh_int_timer = none;
  completions = [];
}

abbrev submitted : RootHub
submitted = record quiet_hub {
  urb = some 7;
  send = true;
  interval = 255;
  rh_int_timer = some (record { target = 7; expires = 1025 });
}

rh_send_irq-Reports_example :
    rh_send_irq regs (0xcc ∷ 0xcc ∷ []) 2 ≡ some (report_of (status_change regs))
rh_send_irq-Reports_example =
    rh_send_irq-Reports regs 0xcc (0xcc ∷ []) 2 (omega arith) (omega arith)

rh_int_timer_do-Polls_example :
    rh_int_timer_do leaves_hub 100 1030 regs (0xcc ∷ []) int_urb submitted
    ≡ some (record submitted {
      interval = 255;
      rh_int_timer = some (record { target = 7; expires = 1030 + delay 100 255 });
      completions = [] ++ reports int_urb (report_of (status_change regs));
    })
rh_int_timer_do-Polls_example =
    rh_int_timer_do-Polls 100 1030 regs 0xcc [] int_urb submitted refl refl (omega arith)
      (omega arith)

rh_int_timer_do-unlinked_example :
    (h' : RootHub) × (rh_int_timer_do (rh_unlink_urb 7) 100 1030 regs (0xcc ∷ []) int_urb submitted
      ≡ some h')
    × (h'.send ≡ false)
    × (h'.rh_int_timer ≡ some (record { target = 7; expires = 1030 + delay 100 255 }))
    × ((callback : RootHub → RootHub) (later : ℕ) (r' : HubRegs) (stack : List ℕ)
        → rh_int_timer_do callback 100 later r' stack int_urb h'
          ≡ some (rh_init_int_timer 100 later int_urb (record h' { rh_int_timer = none })))
rh_int_timer_do-unlinked_example =
    rh_int_timer_do-unlinked 100 1030 regs 0xcc [] int_urb submitted refl refl refl (omega arith)
      (omega arith) (omega arith)

quiet_hub-IsPolled : IsPolled quiet_hub
quiet_hub-IsPolled = record { armed = λ _ sent. cc; idle = λ _. refl; mine = tt }

-- Submitted, reported once, and unlinked
abbrev unlinked_hub : RootHub
unlinked_hub = rh_unlink_urb 7 (rh_submit_int_urb 100 1000 int_urb quiet_hub)

unlinked_hub-reached : HubReach 100 quiet_hub unlinked_hub
unlinked_hub-reached =
    next (next here (submits 1000 int_urb quiet_hub refl))
      (unlinks 7 (rh_submit_int_urb 100 1000 int_urb quiet_hub))

polling_example : IsPolled unlinked_hub
polling_example = polling 100 quiet_hub-IsPolled unlinked_hub-reached
