-- ===== src/Dumper/Instance.antt =====
-- `g_Inst` of side_dumper_core.c, and the settings of the devices in it.
use ps2_side_dumper.Base.{
  ℕ, Bool, false, Option, none, some, List, [], ◌∷◌, ◌++◌, ltb, if◌then◌else◌, get_elem?, get_or,
  set, replicate,
}
use ps2_side_dumper.Mini.{null_dumper, dump_urb_to_printk, Settings, Mini}
use ps2_side_dumper.Dump.Output.{Complaint}
use ps2_side_dumper.Dump.Chunks.{Event}

-- The messages of the core, by their meaning.
pub data Message : Type 0 where
  device_enabled device_disabled device_set : ℕ → Message
  queued : ℕ → Bool → Message
  out_of_memory buffer_overrun list_empty called_twice thread_failed removed worker_exit : Message
  complained : List Complaint → Message
  shown : List Event → Message

-- `TInst`, with the static `uBytesOut` of `DumpUrbToPrintk` and what was reported so far.
pub record Inst : Type 0 where
  pub urb_num_generator : ℕ
  pub pid : ℕ
  pub o_continue : Bool
  pub exit_signal : ℕ
  pub queue : List Mini
  pub items_queued : ℕ
  pub dev_settings : List Settings
  pub bytes_out : ℕ
  pub log : List Message

abbrev pub report : Message → Inst → Inst
report msg s = record s { log = s.log ++ (msg ∷ []) }

-- UINT_MAX, and the initial settings of each device.
abbrev pub uint_max : ℕ
uint_max = 4294967295

abbrev pub default_settings : Settings
default_settings = record {
  enabled = 0;
  async = 0;
  dumper = dump_urb_to_printk;
  out_limit = uint_max;
  in_limit = uint_max;
}

abbrev pub g_inst : Inst
g_inst = record {
  urb_num_generator = 0;
  pid = 0;
  o_continue = false;
  exit_signal = 0;
  queue = [];
  items_queued = 0;
  dev_settings = replicate 16 default_settings;
  bytes_out = 0;
  log = [];
}

-- `sizeof(g_Inst.aDevSettings) / sizeof(g_Inst.aDevSettings[0])`
abbrev pub max_devices : ℕ
max_devices = 16

-- An assignment to fields of `aDevSettings[d]`.
abbrev pub update_settings : ℕ → (Settings → Settings) → Inst → Inst
update_settings d f s = elim (get_elem? s.dev_settings d) [
  | none ↦ s
  | some t ↦ record s { dev_settings = set s.dev_settings d (f t) }
]

-- `SideDumper_Enable` and `SideDumper_Disable`
unfoldable pub enable : ℕ → Inst → Inst
enable d s =
    if ltb d max_devices
    then report (device_enabled d) (update_settings d (λ t. record t { enabled = 1 }) s)
    else s

unfoldable pub disable : ℕ → Inst → Inst
disable d s =
    if ltb d max_devices
    then report (device_disabled d) (update_settings d (λ t. record t { enabled = 0 }) s)
    else s

-- `SideDumper_SetDeviceSettings`; `none` is a NULL pointer.
unfoldable pub set_device_settings : ℕ → Option Settings → Inst → Inst
set_device_settings d none s = s
set_device_settings d (some t) s =
    if ltb d max_devices then report (device_set d) (update_settings d (λ _. t) s) else s

-- `SideDumper_GetDeviceSettings` for a pointer that is not NULL: 0 with the settings, or -ENODEV
-- with all fields zero.
pub data GetStatus : Type 0 where
  got enodev : GetStatus

abbrev pub zero_settings : Settings
zero_settings = record { enabled = 0; async = 0; dumper = null_dumper; out_limit = 0; in_limit = 0 }

unfoldable pub get_device_settings : ℕ → Inst → GetStatus × Settings
get_device_settings d s =
    if ltb d max_devices
    then (got, get_or s.dev_settings d zero_settings)
    else (enodev, zero_settings)
