-- ===== src/Ohci/Hub.antt =====
-- The virtual root hub of portable-ohci-core.c: `rh_submit_urb` for control urbs, and below it
-- `rh_send_irq` and the timer. What `readl` returns of the root hub's registers is an argument, and
-- what `writel` writes to them is part of the result. The completion callback of a control urb is
-- left out.
pub mod Answers
pub mod Ports
pub mod Irq
pub mod Timer
pub mod Polled
pub mod Reports
mod Tests
use ps2_side_dumper.Base.{
  ℕ, zero, suc, ◌+◌, ◌-◌, ◌*◌, ◌/◌, ◌%◌, ◌^◌, Bool, true, false, Option, none, some, List, [], ◌∷◌,
  length, take, set, get_or, bit_and, bit_or, ltb, ◌==◌, if◌then◌else◌,
}
use ps2_side_dumper.Mini.{SetupPacket, min_u}

-- The registers that the hub reads. The port register of wIndex is `portstatus[wIndex-1]`, with no
-- test of wIndex: wIndex 0 is the register before the array, which is the hub's status.
pub record HubRegs : Type 0 where
  pub a : ℕ
  pub b : ℕ
  pub status : ℕ
  pub port_status : ℕ → ℕ

-- A write to `roothub.status`, or to the port register of wIndex.
pub data HubWrite : Type 0 where
  wr_rh_stat : ℕ → HubWrite
  wr_rh_portstat : ℕ → ℕ → HubWrite

-- What a request does: `data_buf` as far as it is set and its bytes count for `len`, the bytes that
-- usb_root_hub_string has already put into the transfer buffer, whether `status` is TD_CC_STALL,
-- the registers written, and the new `rh.devnum`.
pub record Answer : Type 0 where
  pub len : ℕ
  pub data_buf : List ℕ
  pub in_place : List ℕ
  pub stalled : Bool
  pub writes : List HubWrite
  pub devnum : ℕ

-- `rh_submit_urb` starts with an empty answer and no error.
abbrev pub quiet : ℕ → Answer
quiet devnum = record {
  len = 0;
  data_buf = [];
  in_place = [];
  stalled = false;
  writes = [];
  devnum = devnum;
}

abbrev pub stall : ℕ → Answer
stall devnum = record (quiet devnum) { stalled = true }

abbrev pub wrote : HubWrite → ℕ → Answer
wrote w devnum = record (quiet devnum) { writes = w ∷ [] }

abbrev pub bytes : List ℕ → ℕ → Answer
bytes xs devnum = record (quiet devnum) { len = length xs; data_buf = xs }

abbrev pub le16 : ℕ → List ℕ
le16 x = x % 256 ∷ x / 256 % 256 ∷ []

abbrev pub le32 : ℕ → List ℕ
le32 x = x % 256 ∷ x / 256 % 256 ∷ x / 65536 % 256 ∷ x / 16777216 % 256 ∷ []

abbrev pub root_hub_dev_des : List ℕ
root_hub_dev_des =
    0x12 ∷ 0x01 ∷ 0x10 ∷ 0x01 ∷ 0x09 ∷ 0x00 ∷ 0x00 ∷ 0x08 ∷ 0x00 ∷ 0x00 ∷ 0x00 ∷ 0x00 ∷ 0x00 ∷ 0x00
    ∷ 0x00 ∷ 0x02 ∷ 0x01 ∷ 0x01 ∷ []

abbrev pub root_hub_config_des : List ℕ
root_hub_config_des =
    0x09 ∷ 0x02 ∷ 0x19 ∷ 0x00 ∷ 0x01 ∷ 0x01 ∷ 0x00 ∷ 0x40 ∷ 0x00 ∷ 0x09 ∷ 0x04 ∷ 0x00 ∷ 0x00 ∷ 0x01
    ∷ 0x09 ∷ 0x00 ∷ 0x00 ∷ 0x00 ∷ 0x07 ∷ 0x05 ∷ 0x81 ∷ 0x03 ∷ 0x02 ∷ 0x00 ∷ 0xff ∷ []

-- The class descriptor, from the registers a and b: 9 bytes, or 11 for 7 ports and more.
unfoldable pub hub_descriptor : ℕ → ℕ → List ℕ
hub_descriptor a b =
    let ports = bit_and a 0xff in
    let protection =
      if bit_and a 0x1000 == 0 then (if bit_and a 0x800 == 0 then 0 else 0x8) else 0x10 in
    let powers = bit_or (if bit_and a 0x100 == 0 then 0 else 0x1) protection in
    let removable = bit_and b 0xffff in
    if ltb ports 7
    then 9 ∷ 0x29 ∷ ports ∷ powers ∷ 0 ∷ a / 2 ^ 24 % 256 ∷ 0 ∷ removable % 256 ∷ 0xff ∷ []
    else 11
      ∷ 0x29
      ∷ ports
      ∷ powers
      ∷ 0
      ∷ a / 2 ^ 24 % 256
      ∷ 0
      ∷ removable % 256
      ∷ removable / 256
      ∷ 0xff
      ∷ 0xff
      ∷ []

-- RH_CLEAR_FEATURE of a port: the bit written to its register
unfoldable pub clear_port_feature : ℕ → Option ℕ
clear_port_feature value =
    if value == 0x01
    then some 0x1
    else if value == 0x02
    then some 0x8
    else if value == 0x08
    then some 0x200
    else if value == 0x10
    then some 0x10000
    else if value == 0x11
    then some 0x20000
    else if value == 0x12
    then some 0x40000
    else if value == 0x13
    then some 0x80000
    else if value == 0x14
    then some 0x100000
    else none

-- RH_SET_FEATURE of a port whose register reads as `now`: a reset and an enable are written only
-- with RH_PS_CCS set.
unfoldable pub set_port_feature : ℕ → ℕ → Option ℕ
set_port_feature now value =
    if value == 0x02
    then some 0x4
    else if value == 0x04
    then (if bit_and now 0x1 == 0 then none else some 0x10)
    else if value == 0x08
    then some 0x100
    else if value == 0x01
    then (if bit_and now 0x1 == 0 then none else some 0x2)
    else none

abbrev pub wrote_port : ℕ → Option ℕ → ℕ → Answer
wrote_port index none devnum = quiet devnum
wrote_port index (some x) devnum = wrote (wr_rh_portstat index x) devnum

-- A descriptor of which `declared` bytes are there, cut to wLength
unfoldable pub descriptor_answer : ℕ → ℕ → ℕ → ℕ → List ℕ → Answer
descriptor_answer devnum leni wanted declared xs = record (quiet devnum) {
  len = min_u leni (min_u declared wanted);
  data_buf = xs;
}

-- A string descriptor: none is a stall.
unfoldable pub string_answer : ℕ → ℕ → List ℕ → Answer
string_answer devnum leni text =
    if ltb 0 (length text)
    then record (quiet devnum) { len = min_u leni (length text); in_place = text }
    else stall devnum

-- usb_root_hub_string, which is not part of this repository: the bytes it writes to the buffer of
-- the length given to it, by string index. It returns their number.
module _ (hub_string : ℕ → ℕ → List ℕ) where
  -- RH_GET_DESCRIPTOR: `leni` is the urb's transfer_buffer_length.
  unfoldable pub get_hub_descriptor : ℕ → ℕ → SetupPacket → Answer
  get_hub_descriptor devnum leni cmd =
      let kind = bit_and cmd.value 0xff00 / 256 in
      if kind == 1
      then descriptor_answer devnum leni cmd.length (length root_hub_dev_des) root_hub_dev_des
      else if kind == 2
      then descriptor_answer devnum leni cmd.length (length root_hub_config_des) root_hub_config_des
      else if kind == 3
      then string_answer devnum leni (hub_string (bit_and cmd.value 0xff) cmd.length)
      else stall devnum

  -- The switch of `rh_submit_urb` over bmRType_bReq
  unfoldable pub hub_request : HubRegs → ℕ → ℕ → SetupPacket → Answer
  hub_request r devnum leni cmd =
      let code = bit_or cmd.requesttype (cmd.request * 256) in
      if code == 0x0080
      then bytes (le16 1) devnum
      else if code == 0x0081
      then bytes (le16 0) devnum
      else if code == 0x0082
      then bytes (le16 0) devnum
      else if code == 0x00a0
      then bytes (le32 (bit_and r.status 0x7fff7fff)) devnum
      else if code == 0x00a3
      then bytes (le32 (r.port_status cmd.index)) devnum
      else if code == 0x0102
      then quiet devnum
      else if code == 0x0120
      then (if cmd.value == 0x01 then wrote (wr_rh_stat 0x20000) devnum else quiet devnum)
      else if code == 0x0123
      then wrote_port cmd.index (clear_port_feature cmd.value) devnum
      else if code == 0x0323
      then wrote_port cmd.index (set_port_feature (r.port_status cmd.index) cmd.value) devnum
      else if code == 0x0500
      then quiet cmd.value
      else if code == 0x0680
      then get_hub_descriptor devnum leni cmd
      else if code == 0x06a0
      then descriptor_answer devnum leni cmd.length (get_or (hub_descriptor r.a r.b) 0 0)
          (hub_descriptor r.a r.b)
      else if code == 0x0880
      then bytes (1 ∷ []) devnum
      else if code == 0x0900
      then wrote (wr_rh_stat 0x10000) devnum
      else stall devnum

  -- The rest of `rh_submit_urb`: what is copied to the transfer buffer, and `actual_length`
  unfoldable pub rh_submit_urb : HubRegs → ℕ → ℕ → SetupPacket → Answer
  rh_submit_urb r devnum leni cmd =
      let answer = hub_request r devnum leni cmd in
      let len = min_u answer.len leni in
      record answer { len = len; data_buf = take len answer.data_buf }
