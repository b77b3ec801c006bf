-- ===== src/Usb.antt =====
-- What the driver and the dumper take from linux/usb.h. The bit layout of a pipe is not part of
-- this repository: a pipe is the record of what the macros usb_pipetype, usb_pipedevice,
-- usb_pipeendpoint, usb_pipeout (usb_pipein is its negation), usb_pipeslow and usb_maxpacket
-- return for it. Request, type and descriptor numbers are those of the USB 1.1 specification,
-- chapter 9.
use ps2_side_dumper.Base.{ℕ, Bool, Option}

pub data PipeType : Type 0 where
  isochronous interrupt control bulk other_type : PipeType

pub record Pipe : Type 0 where
  pub kind : PipeType
  pub device : ℕ
  pub endpoint : ℕ
  pub out : Bool
  pub slow : Bool
  pub max_packet : ℕ

-- The memory behind a pointer, by offset. It has contents at every offset; how many of them
-- belong to the object is known to the program only by the lengths beside the pointer.
abbrev pub Bytes : Type 0
Bytes = ℕ → ℕ

-- `struct usb_device`: its address, and whether its `bus` is set
pub record Device : Type 0 where
  pub devnum : ℕ
  pub has_bus : Bool

-- What the dumper reads of an `urb_t`. A pointer that may be NULL is an option.
pub record Urb : Type 0 where
  pub dev : Option Device
  pub pipe : Pipe
  pub transfer_buffer_length : ℕ
  pub actual_length : ℕ
  pub setup_packet : Option Bytes
  pub transfer_buffer : Option Bytes
