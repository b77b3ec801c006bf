-- ===== src/Dumper/Tests.antt =====
-- Runs of the side dumper's core, side_dumper_core.c.
use ps2_side_dumper.Base.{
  ℕ, ◌<◌, ◌≡◌, ◌≢◌, refl, Bool, true, false, some, [], ◌∷◌, get_or, replicate, arith,
}
use ps2_side_dumper.Base.Run.{Run, ok, fault, out_of_fuel}
use ps2_side_dumper.Usb.{Urb, Device, Bytes, control}
use ps2_side_dumper.Mini.{Settings}
use ps2_side_dumper.Dumper.{
  Inst, Answers, default_settings, g_inst, queue_urb, watched, init_mini, on_return,
}
use ps2_side_dumper.Dumper.Capture.{Captures, init_mini-Captures}
use ps2_side_dumper.Dumper.Hooks.{Queues, hooks_queue, on_return-faults}
use ps2_side_dumper.Dumper.Worker.{
  System, system, absent, looping, install_dumper, stop_worker, worker_round, here, next, stop,
  return,
}
use ps2_side_dumper.Dumper.Worker.{EndedBy, worker_never_idle, worker_ends}

abbrev printable : ℕ → Bool
printable c = true

abbrev plenty : Answers
plenty = record { item_ok = true; buffer_ok = true; out_ok = true; heap = λ i. 0; stack = λ i. 0 }

-- GET_DESCRIPTOR for the device descriptor
abbrev setup : Bytes
setup = λ i. get_or (0x80 ∷ 6 ∷ 0 ∷ 1 ∷ 0 ∷ 0 ∷ 18 ∷ 0 ∷ []) i 0

abbrev device : Device
device = record { devnum = 2; has_bus = true }

-- A control transfer that comes in, and returned so many bytes
abbrev returned : ℕ → Urb
returned n = record {
  dev = some device;
  pipe = record {
    kind = control;
    device = 2;
    endpoint = 0;
    out = false;
    slow = false;
    max_packet = 8;
  };
  transfer_buffer_length = 18;
  actual_length = n;
  setup_packet = some setup;
  transfer_buffer = some setup;
}

abbrev on_settings : ℕ → Settings
on_settings async = record default_settings { enabled = 1; async = async }

abbrev watching : ℕ → Inst
watching async = record g_inst {
  dev_settings =
      default_settings ∷ default_settings ∷ on_settings async ∷ replicate 13 default_settings;
}

init_mini-Captures_example :
    Captures (returned 18) device (watching 1) (init_mini plenty device (returned 18) (watching 1))
init_mini-Captures_example = init_mini-Captures plenty device (returned 18) (watching 1) refl

hooks_queue_example :
    Queues (returned 18) (watching 1) (on_return printable 10 plenty (returned 18) (watching 1))
hooks_queue_example =
    hooks_queue printable 10 plenty (returned 18) (watching 1) device (on_settings 1) refl refl
      (omega arith) refl (omega arith) (omega arith) refl refl

on_return-faults_example : on_return printable 10 plenty (returned 0) (watching 0) ≡ fault
on_return-faults_example =
    on_return-faults printable 10 plenty (returned 0) (watching 0) device (on_settings 0) refl refl
      (omega arith) refl (omega arith) refl refl refl refl refl refl setup refl refl refl

abbrev before : System
before = system (watching 1) absent

abbrev installed : System
installed = (install_dumper (some 77) before).0

abbrev busy : Inst
busy = record (watching 1) { urb_num_generator = 1; pid = 77; o_continue = true }

abbrev inst_of : Run Inst → Inst
inst_of (ok s) = s
inst_of fault = g_inst
inst_of out_of_fuel = g_inst

-- After one urb was queued
abbrev one_queued : Inst
one_queued = inst_of (on_return printable 10 plenty (returned 18) busy)

queues_one : on_return printable 10 plenty (returned 18) busy ≡ ok one_queued
unfolding on_return watched queue_urb init_mini
queues_one = refl

worker_never_idle_example : one_queued.queue ≢ []
unfolding install_dumper on_return watched queue_urb init_mini
worker_never_idle_example =
    worker_never_idle printable 10 (some 77) before {s = one_queued} refl
      (next here (return looping plenty (returned 18) queues_one)) refl (omega arith)

worker_ends_example :
    (0 < (stop_worker busy).items_queued)
    × EndedBy (stop_worker busy) (worker_round printable 10 plenty (stop_worker busy))
unfolding install_dumper stop_worker
worker_ends_example =
    worker_ends printable 10 (some 77) before {s = stop_worker busy} plenty refl
      (next here (stop busy looping refl)) refl
