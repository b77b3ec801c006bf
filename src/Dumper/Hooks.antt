-- ===== src/Dumper/Hooks.antt =====
-- `SideDumper_OnSubmit` and `SideDumper_OnReturn` of side_dumper_core.c.
use ps2_side_dumper.Base.{
  ℕ, ◌+◌, ◌%◌, ◌^◌, ◌<◌, ◌≡◌, ◌≢◌, refl, Bool, true, false, ◌&&◌, ◌⊎◌, none, some, [], ◌∷◌, ◌++◌,
  arith, ltb, if◌then◌else◌, inl, inr, bit_and, get_elem?,
}
use ps2_side_dumper.Base.Run.{Run, ok, fault, out_of_fuel}
use ps2_side_dumper.Usb.{control, Device, Urb, Bytes}
use ps2_side_dumper.Mini.{Settings, Mini, dump_urb_to_printk, test_for_std_descriptor}
use ps2_side_dumper.Dump.{dump_std_descriptors, dump_urb}
use ps2_side_dumper.Dump.Raw.{dump_tb, tb_length}
use ps2_side_dumper.Dumper.{
  Inst, Answers, max_devices, init_mini, run_dumper, process_mini, process_urb, queue_urb, watched,
  on_submit, on_return, copied_setup,
}
use ps2_side_dumper.Dumper.Capture.{Captured, Captures, init_mini-Captures, setup_kept}

module _ (isprint : ℕ → Bool) (fuel : ℕ) (k : Answers) (urb : Urb) (s : Inst) where
  -- The two hooks together look at an urb once: one that goes out is ignored on its return, and one
  -- that comes in is ignored on its submission.
  pub hooks_once :
      (if urb.pipe.out then on_return isprint fuel k urb s else on_submit isprint fuel k urb s)
      ≡ ok s
  unfolding on_submit on_return
  hooks_once = ground arith

  -- An urb of no device, of a device that is not on a bus, is none of the first sixteen, or is not
  -- enabled, changes nothing in either hook.
  pub hooks_unwatched :
      (dev : Device)
      → ((urb.dev ≡ none)
          ⊎ ((urb.dev ≡ some dev) × ((dev.has_bus && ltb dev.devnum max_devices) ≡ false))
          ⊎ ((t : Settings) × (urb.dev ≡ some dev)
              × (get_elem? s.dev_settings dev.devnum ≡ some t)
              × (t.enabled ≡ 0)))
      → (on_submit isprint fuel k urb s ≡ ok s) × (on_return isprint fuel k urb s ≡ ok s)
  unfolding on_submit on_return watched
  hooks_unwatched dev (inl h) = ground arith
  hooks_unwatched dev (inr (inl h)) = ground arith
  hooks_unwatched dev (inr (inr (t, h, e, z))) = ground arith

abbrev pub Queues : Urb → Inst → Run Inst → Type 0
Queues urb s (ok s') =
    (m : Mini) × (s'.queue ≡ s.queue ++ (m ∷ []))
    × Captured urb s m
    × (s'.items_queued ≡ s.items_queued + 1)
Queues urb s fault = ⊥
Queues urb s out_of_fuel = ⊥

queue_urb-Queues :
    (k : Answers) (dev : Device) (urb : Urb) (s : Inst)
    → k.item_ok ≡ true
    → k.buffer_ok ≡ true
    → Queues urb s (queue_urb k dev urb s)
unfolding queue_urb
queue_urb-Queues k dev urb s item room =
    go (init_mini k dev urb s) refl (init_mini-Captures k dev urb s room)
  where
    go :
        (r : Run (Mini × Inst))
        → init_mini k dev urb s ≡ r
        → Captures urb dev s r
        → Queues urb s (queue_urb k dev urb s)
    go (ok (m, s')) e (c, d, f) = rw (e, item, queue_urb) (m, rw f refl, c, rw f refl)
    go fault e c = absurd c
    go out_of_fuel e c = absurd c

-- The copy of an urb that comes in and moved nothing.
abbrev empty_mini : Answers → Device → Urb → Inst → Mini
empty_mini k dev urb s = record {
  urb_number = s.urb_num_generator;
  devnum = dev.devnum;
  pipe = urb.pipe;
  transfer_buffer_length = urb.transfer_buffer_length;
  actual_length = urb.actual_length;
  setup_packet = copied_setup urb.setup_packet k.stack;
  transfer_buffer = none;
}

abbrev next_number : Inst → Inst
next_number s = record s { urb_num_generator = (s.urb_num_generator + 1) % 2 ^ 32 }

init_mini-empty :
    (k : Answers) (dev : Device) (urb : Urb) (s : Inst)
    → urb.pipe.out ≡ false
    → urb.actual_length ≡ 0
    → init_mini k dev urb s ≡ ok (empty_mini k dev urb s, next_number s)
unfolding init_mini
init_mini-empty k dev urb s dir none_moved = ground arith

run_dumper-faults :
    (isprint : ℕ → Bool) (fuel : ℕ) (k : Answers) (t : Settings) (m : Mini) (s : Inst)
    → k.out_ok ≡ true
    → m.pipe.kind ≡ control
    → m.pipe.out ≡ false
    → m.actual_length ≡ 0
    → m.transfer_buffer ≡ none
    → bit_and (m.setup_packet 0) 0x60 ≡ 0
    → m.setup_packet 1 ≡ 6
    → run_dumper isprint fuel k t m s ≡ fault
unfolding run_dumper dump_urb dump_tb tb_length dump_std_descriptors test_for_std_descriptor
run_dumper-faults isprint fuel k t m s out kind dir none_moved null std req = ground arith

process_mini-run :
    (isprint : ℕ → Bool) (fuel : ℕ) (k : Answers) (t : Settings) (m : Mini) (s : Inst)
    → get_elem? s.dev_settings m.devnum ≡ some t
    → t.enabled ≢ 0
    → t.dumper ≡ dump_urb_to_printk
    → process_mini isprint fuel k m s ≡ run_dumper isprint fuel k t m s
unfolding process_mini
process_mini-run isprint fuel k t m s entry on fn = ground arith

module _ (isprint : ℕ → Bool) (fuel : ℕ) (k : Answers) (urb : Urb) (s : Inst) (dev : Device)
    (t : Settings) (has : urb.dev ≡ some dev) (bus : dev.has_bus ≡ true)
    (low : dev.devnum < max_devices) (entry : get_elem? s.dev_settings dev.devnum ≡ some t)
    (on : t.enabled ≢ 0) where
  watched-some : watched urb s ≡ some (dev, t)
  unfolding watched
  watched-some = ground (arith, has, bus, low, entry, on)

  -- For a device that is on a bus, one of the first sixteen, enabled and in asynchronous mode, and
  -- if the kernel gives the memory, the hook for the urb's direction puts one item at the end of
  -- the queue, which has captured the urb, and raises the count of queued items by one.
  pub hooks_queue :
      t.async ≢ 0
      → k.item_ok ≡ true
      → k.buffer_ok ≡ true
      → Queues urb s
          (if urb.pipe.out then on_submit isprint fuel k urb s else on_return isprint fuel k urb s)
  unfolding on_submit on_return
  hooks_queue later item room = ground (arith, watched-some, queue_urb-Queues k dev urb s item room)

  -- For a device that is on a bus, one of the first sixteen, enabled and in synchronous mode: a
  -- control transfer that asked for a standard descriptor and returned no byte makes the dumper
  -- read the descriptor's type through NULL, so that `SideDumper_OnReturn` faults, if the kernel
  -- gives the memory for the text.
  pub on_return-faults :
      t.async ≡ 0
      → t.dumper ≡ dump_urb_to_printk
      → k.out_ok ≡ true
      → urb.pipe.kind ≡ control
      → urb.pipe.out ≡ false
      → urb.actual_length ≡ 0
      → (src : Bytes) → urb.setup_packet ≡ some src
      → bit_and (src 0) 0x60 ≡ 0
      → src 1 ≡ 6
      → on_return isprint fuel k urb s ≡ fault
  unfolding on_return process_urb
  on_return-faults now fn out kind dir none_moved src sp std req = ground (
    arith,
    watched-some,
    init_mini-empty k dev urb s dir none_moved,
    process_mini-run isprint fuel k t (empty_mini k dev urb s) (next_number s) entry on fn,
    run_dumper-faults isprint fuel k t (empty_mini k dev urb s) (next_number s),
    setup_kept k.stack src 0 urb.setup_packet sp (omega arith),
    setup_kept k.stack src 1 urb.setup_packet sp (omega arith),
  )
