-- ===== src/Dumper/Capture.antt =====
-- What `InitMini` of side_dumper_core.c keeps of an urb.
use ps2_side_dumper.Base.{
  ℕ, ◌+◌, ◌%◌, ◌^◌, ◌<◌, ◌≡◌, refl, true, Option, none, some, arith, ◌==◌, if◌then◌else◌,
}
use ps2_side_dumper.Base.Run.{Run, ok, fault, out_of_fuel}
use ps2_side_dumper.Usb.{Device, Urb, Bytes}
use ps2_side_dumper.Mini.{Mini, pipe_length}
use ps2_side_dumper.Dumper.{Inst, Answers, init_mini, copied, copied_setup, copied_buffer}

abbrev pub buffer_byte : Option Bytes → ℕ → Option ℕ
buffer_byte none i = none
buffer_byte (some b) i = some (b i)

-- What `InitMini` keeps of an urb: its own number, the pipe and the lengths, and of the setup packet
-- and of the bytes transferred as much as there is.
pub record Captured (urb : Urb) (s : Inst) (m : Mini) : Type 0 where
  pub number : m.urb_number ≡ s.urb_num_generator
  pub pipe : m.pipe ≡ urb.pipe
  pub lengths :
      (m.transfer_buffer_length ≡ urb.transfer_buffer_length)
      × (m.actual_length ≡ urb.actual_length)
  pub setup : (src : Bytes) (i : ℕ) → urb.setup_packet ≡ some src → i < 8 → m.setup_packet i ≡ src i
  pub bytes :
      (src : Bytes) (i : ℕ)
      → urb.transfer_buffer ≡ some src
      → i < pipe_length urb.pipe urb.transfer_buffer_length urb.actual_length
      → buffer_byte m.transfer_buffer i ≡ some (src i)

abbrev pub Captures : Urb → Device → Inst → Run (Mini × Inst) → Type 0
Captures urb dev s (ok (m, s')) =
    Captured urb s m
    × (m.devnum ≡ dev.devnum)
    × (s' ≡ record s { urb_num_generator = (s.urb_num_generator + 1) % 2 ^ 32 })
Captures urb dev s fault = ⊥
Captures urb dev s out_of_fuel = ⊥

-- The copy of a transfer buffer for which kmalloc gave memory.
abbrev kept : Answers → ℕ → Option Bytes → Option Bytes
kept k n none = none
kept k n (some src) = if n == 0 then none else some (copied n src k.heap)

copied_buffer-kept :
    (k : Answers) (n : ℕ) (o : Option Bytes)
    → k.buffer_ok ≡ true
    → copied_buffer k n o ≡ ok (kept k n o)
copied_buffer-kept k n none room = refl
copied_buffer-kept k n (some src) room = ground arith

byte_kept :
    (k : Answers) (n : ℕ) (src : Bytes) (i : ℕ)
    → i < n
    → buffer_byte (kept k n (some src)) i ≡ some (src i)
byte_kept k n src i lt = ground arith

pub setup_kept :
    (old src : Bytes) (i : ℕ) (o : Option Bytes)
    → o ≡ some src
    → i < 8
    → copied_setup o old i ≡ src i
setup_kept old src i o e lt = rw e (ground arith)

-- If kmalloc gives the buffer, `InitMini` makes a copy with every byte that the urb moved, and only
-- the generator of urb numbers changes.
pub init_mini-Captures :
    (k : Answers) (dev : Device) (urb : Urb) (s : Inst)
    → k.buffer_ok ≡ true
    → Captures urb dev s (init_mini k dev urb s)
unfolding init_mini
init_mini-Captures k dev urb s room =
    let n = pipe_length urb.pipe urb.transfer_buffer_length urb.actual_length in
    rw (copied_buffer-kept k n urb.transfer_buffer room, init_mini)
      (
        record {
          number = refl;
          pipe = refl;
          lengths = (refl, refl);
          setup = λ src i e lt. setup_kept k.stack src i urb.setup_packet e lt;
          bytes = λ src i e lt. rw e (byte_kept k n src i lt);
        },
        refl,
        refl,
      )
