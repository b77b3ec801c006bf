-- ===== src/Mini.antt =====
-- The data of side_dumper.h and the small helpers of side_dumper_core.c: the settings of a device,
-- the copy of an urb that the dumper keeps, and what is read out of its setup packet.
use ps2_side_dumper.Base.{
  ℕ, ◌+◌, ◌*◌, Bool, true, false, ◌&&◌, Option, List, bit_and, codes, ltb, ◌==◌, if◌then◌else◌,
}
use ps2_side_dumper.Usb.{PipeType, isochronous, interrupt, control, bulk, other_type, Pipe, Bytes}

-- A value of `pfnDumper`: NULL, or the one dumper of the program.
pub data DumperFn : Type 0 where
  null_dumper dump_urb_to_printk : DumperFn

-- `SideDumper_TDeviceSettings`
pub record Settings : Type 0 where
  pub enabled : ℕ
  pub async : ℕ
  pub dumper : DumperFn
  pub out_limit : ℕ
  pub in_limit : ℕ

-- `SideDumper_TMiniUrb`
pub record Mini : Type 0 where
  pub urb_number : ℕ
  pub devnum : ℕ
  pub pipe : Pipe
  pub transfer_buffer_length : ℕ
  pub actual_length : ℕ
  pub setup_packet : Bytes
  pub transfer_buffer : Option Bytes

-- A 16-bit field at offset `i`, on a little-endian machine.
abbrev pub word_at : Bytes → ℕ → ℕ
word_at b i = b i + 256 * b (i + 1)

-- `devrequest`, the setup packet of the USB specification; `TSetupPacket` holds the same fields.
pub record SetupPacket : Type 0 where
  pub requesttype : ℕ
  pub request : ℕ
  pub value : ℕ
  pub index : ℕ
  pub length : ℕ

abbrev pub setup_of : Bytes → SetupPacket
setup_of b = record {
  requesttype = b 0;
  request = b 1;
  value = word_at b 2;
  index = word_at b 4;
  length = word_at b 6;
}

-- `PipeTypeStr`
unfoldable pub pipe_type_str : PipeType → List ℕ
pipe_type_str isochronous = codes "iso"
pipe_type_str interrupt = codes "intr"
pipe_type_str control = codes "ctrl"
pipe_type_str bulk = codes "bulk"
pipe_type_str other_type = codes "?"

abbrev pub is_control : PipeType → Bool
is_control control = true
is_control isochronous = false
is_control interrupt = false
is_control bulk = false
is_control other_type = false

-- USB_TYPE_STANDARD is 0 and USB_REQ_GET_DESCRIPTOR is 6.
abbrev pub get_descriptor : ℕ
get_descriptor = 6

-- `TestForStdDescriptor`
unfoldable pub test_for_std_descriptor : Mini → Bool
test_for_std_descriptor m =
    is_control m.pipe.kind
    && (bit_and (setup_of m.setup_packet).requesttype 0x60 == 0)
    && ((setup_of m.setup_packet).request == get_descriptor)

-- `GetStringIndex`: the low byte of the value field, which is not converted.
unfoldable pub get_string_index : Mini → ℕ
get_string_index m = bit_and (setup_of m.setup_packet).value 0xff

-- `min` of unsigned values
unfoldable pub min_u : ℕ → ℕ → ℕ
min_u a b = if ltb a b then a else b

-- How many bytes the urb moved or is to move, by its direction.
abbrev pub pipe_length : Pipe → ℕ → ℕ → ℕ
pipe_length p transfer_buffer_length actual_length =
    if p.out then transfer_buffer_length else actual_length
