-- ===== src/Dumper.antt =====
-- The side dumper's core, side_dumper_core.c: the settings of the sixteen devices, the hooks that
-- the host controller driver calls for each urb, and the copies of urbs that they make. The
-- semaphores' counts and the worker thread are in the child `Worker`.
-- What kmalloc answers, and what memory holds that the code does not initialise, are arguments.
mod Instance
pub mod Devices
pub mod Capture
pub mod Hooks
pub mod Worker
mod Tests
unfoldable pub use Instance.*
use ps2_side_dumper.Base.{
  ℕ, suc, ◌+◌, ◌-◌, ◌*◌, ◌%◌, ◌^◌, Bool, false, not, ◌&&◌, Option, none, some, List, [], ◌∷◌, ◌++◌,
  codes, ltb, leb, ◌==◌, if◌then◌else◌, length, get_elem?, get_or, set, take, replicate,
}
use ps2_side_dumper.Base.Run.{Run, ok, fault, out_of_fuel, ◌>>=◌}
use ps2_side_dumper.Usb.{Device, Urb, Bytes}
use ps2_side_dumper.Mini.{null_dumper, dump_urb_to_printk, Settings, Mini, pipe_length}
use ps2_side_dumper.Dump.{dump_urb}
use ps2_side_dumper.Dump.Output.{Complaint}
use ps2_side_dumper.Dump.Chunks.{Event, chunks}

-- What the kernel answers to the allocations for one urb, and the memory that is not initialised.
pub record Answers : Type 0 where
  pub item_ok : Bool
  pub buffer_ok : Bool
  pub out_ok : Bool
  pub heap : Bytes
  pub stack : Bytes

-- memcpy of `n` bytes over memory that holds `old`
abbrev pub copied : ℕ → Bytes → Bytes → Bytes
copied n src old = λ i. if ltb i n then src i else old i

-- The setup packet of the copy: what was in its memory, unless the urb has one.
abbrev pub copied_setup : Option Bytes → Bytes → Bytes
copied_setup none old = old
copied_setup (some src) old = copied 8 src old

-- The transfer buffer of the copy. The result of kmalloc is not tested, so the copy through NULL is
-- a fault.
abbrev pub copied_buffer : Answers → ℕ → Option Bytes → Run (Option Bytes)
copied_buffer k n none = ok none
copied_buffer k n (some src) =
    if n == 0 then ok none else if k.buffer_ok then ok (some (copied n src k.heap)) else fault

-- `InitMini`, for an urb whose `dev` is not NULL. The generator is an unsigned int and wraps.
unfoldable pub init_mini : Answers → Device → Urb → Inst → Run (Mini × Inst)
init_mini k dev urb s =
    copied_buffer k (pipe_length urb.pipe urb.transfer_buffer_length urb.actual_length)
      urb.transfer_buffer
    >>= λ buffer. ok (
      record {
        urb_number = s.urb_num_generator;
        devnum = dev.devnum;
        pipe = urb.pipe;
        transfer_buffer_length = urb.transfer_buffer_length;
        actual_length = urb.actual_length;
        setup_packet = copied_setup urb.setup_packet k.stack;
        transfer_buffer = buffer;
      },
      record s { urb_num_generator = (s.urb_num_generator + 1) % 2 ^ 32 },
    )

-- `QueueUrb`
unfoldable pub queue_urb : Answers → Device → Urb → Inst → Run Inst
queue_urb k dev urb s =
    if not k.item_ok
    then ok (report out_of_memory s)
    else (init_mini k dev urb s >>= λ r.
        let s' = report (queued r.0.urb_number r.0.pipe.out) r.1 in
        ok (record s' { queue = s'.queue ++ (r.0 ∷ []); items_queued = s'.items_queued + 1 }))

-- The settings of the urb's device, where the hooks go on: the device is there and on a bus, is
-- one of the first sixteen, and is enabled.
unfoldable pub watched : Urb → Inst → Option (Device × Settings)
watched urb s = elim urb.dev [
  | none ↦ none
  | some dev ↦
      if not (dev.has_bus && ltb dev.devnum max_devices)
      then none
      else elim (get_elem? s.dev_settings dev.devnum) [
        | none ↦ none
        | some t ↦ if t.enabled == 0 then none else some (dev, t)
      ]
]

-- `uStrLen`, the size of the buffer `pszOut`
abbrev pub str_len : ℕ
str_len = 16 * 1024

-- KERN_DEBUG "side_dumper|"
abbrev pub header : List ℕ
header = codes "<7>side_dumper|"

module _ (isprint : ℕ → Bool) (fuel : ℕ) where
  -- The text that is printed: with its last byte, if it has filled the buffer or overrun it, cut.
  abbrev fitted : List ℕ → List ℕ
  fitted text = if leb str_len (length text) then take (str_len - 1) text else text

  abbrev overrun : List ℕ → Inst → Inst
  overrun text s = if leb str_len (length text) then report buffer_overrun s else s

  -- `DumpUrbToPrintk`. The loop over the lines has as many rounds as the text has bytes, and one.
  unfoldable pub run_dumper : Answers → Settings → Mini → Inst → Run Inst
  run_dumper k t m s =
      if not k.out_ok
      then ok (report out_of_memory s)
      else (dump_urb isprint fuel t header m >>= λ d.
          elim (chunks (suc (length (fitted d.text))) (not (t.async == 0)) s.bytes_out
            (fitted d.text)) [
              | none ↦ out_of_fuel
              | some (events, out) ↦
                  let s' = overrun d.text (report (complained d.complaints) s) in
                  ok (record (report (shown events) s') { bytes_out = out })
            ])

  -- `ProcessMini`; an index outside the array of settings is a fault.
  unfoldable pub process_mini : Answers → Mini → Inst → Run Inst
  process_mini k m s = elim (get_elem? s.dev_settings m.devnum) [
    | none ↦ fault
    | some t ↦
        if t.enabled == 0
        then ok s
        else elim t.dumper [ null_dumper ↦ ok s | dump_urb_to_printk ↦ run_dumper k t m s ]
  ]

  -- `ProcessUrb`; `CleanMini` releases the copy, which is not used again.
  unfoldable pub process_urb : Answers → Device → Urb → Inst → Run Inst
  process_urb k dev urb s = init_mini k dev urb s >>= λ r. process_mini k r.0 r.1

  abbrev dispatch : Answers → Urb → Device × Settings → Inst → Run Inst
  dispatch k urb (dev, t) s =
      if t.async == 0 then process_urb k dev urb s else queue_urb k dev urb s

  -- `SideDumper_OnSubmit` acts on output pipes, `SideDumper_OnReturn` on input pipes.
  unfoldable pub on_submit : Answers → Urb → Inst → Run Inst
  on_submit k urb s = elim (watched urb s) [
    | none ↦ ok s
    | some w ↦ if urb.pipe.out then dispatch k urb w s else ok s
  ]

  unfoldable pub on_return : Answers → Urb → Inst → Run Inst
  on_return k urb s = elim (watched urb s) [
    | none ↦ ok s
    | some w ↦ if urb.pipe.out then ok s else dispatch k urb w s
  ]
