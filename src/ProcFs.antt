-- ===== src/ProcFs.antt =====
-- The proc files of the dumper, side_dumper_procfs.c: reading the lists of devices and the settings,
-- and parsing what is written. The 256-byte array `a` is memory of which copy_from_user fills a
-- first part; what stands behind is whatever was there, and no zero ends the text.
-- simple_strtoul of the kernel is the parameter `strtoul`: from a position and a base, the value
-- and the position behind the number (the same position if there is none).
pub mod Parse
pub mod Listing
pub mod Install
mod Tests
use ps2_side_dumper.Base.{
  ℕ, zero, suc, ◌+◌, ◌-◌, Bool, true, false, not, ◌&&◌, ◌||◌, Option, none, some, List, [], ◌∷◌,
  ◌++◌, codes, ltb, leb, ◌==◌, if◌then◌else◌, length,
}
use ps2_side_dumper.Base.Run.{Run, ok, fault, out_of_fuel, ◌>>=◌}
use ps2_side_dumper.Text.{dec, dec_pad}
use ps2_side_dumper.Usb.{Bytes}
use ps2_side_dumper.Mini.{Settings}
use ps2_side_dumper.Dumper.{
  Inst, enable, disable, set_device_settings, get_device_settings, GetStatus, got, enodev, copied,
}

-- g_uMaxDevNumber and g_uDeviceAllNumber
abbrev pub max_dev_number : ℕ
max_dev_number = 100

abbrev pub device_all_number : ℕ
device_all_number = 9999

abbrev is_enabled : Settings → Bool
is_enabled t = not (t.enabled == 0)

-- The loop of `Read_Enabled` and `Read_Disabled` from device `dev` on, with so many rounds left: it
-- prints the devices whose flag is `want`, up to the first device that is not there.
unfoldable pub list_devices : Bool → ℕ → ℕ → Inst → List ℕ
list_devices want zero dev s = []
list_devices want (suc left) dev s =
    let rest = list_devices want left (dev + 1) s in
    let (status, t) = get_device_settings dev s in
    elim status [
      | enodev ↦ []
      | got ↦
          if (if is_enabled t then want else not want)
          then dec_pad 2 dev ++ (codes " " ++ rest)
          else rest
    ]

-- `Read_Enabled` and `Read_Disabled`
unfoldable pub read_enabled : Inst → List ℕ
read_enabled s =
    codes "SideDumper: enabled devices = [ "
    ++ (list_devices true (max_dev_number - 1) 1 s ++ codes "]\n")

unfoldable pub read_disabled : Inst → List ℕ
read_disabled s =
    codes "SideDumper: disabled devices = [ "
    ++ (list_devices false (max_dev_number - 1) 1 s ++ codes "]\n")

-- `PrintSettings`; nothing for a device that is not there
unfoldable pub print_settings : ℕ → Inst → List ℕ
print_settings dev s =
    let (status, t) = get_device_settings dev s in
    elim status [
      | enodev ↦ []
      | got ↦
          codes "SideDumper: device_"
          ++ (dec_pad 2 dev
              ++ (codes " settings = [ Enabled:"
                  ++ (dec t.enabled
                      ++ (codes " Async:"
                          ++ (dec t.async
                              ++ (codes " OutLimit:"
                                  ++ (dec t.out_limit
                                      ++ (codes " InLimit:"
                                          ++ (dec t.in_limit ++ codes " ]\n")))))))))
    ]

-- The loop of `Read_DeviceSettings` over all devices, up to the first that prints nothing.
unfoldable pub print_all : ℕ → ℕ → Inst → List ℕ
print_all zero dev s = []
print_all (suc left) dev s =
    let rest = print_all left (dev + 1) s in
    if length (print_settings dev s) == 0 then [] else print_settings dev s ++ rest

-- `Read_DeviceSettings`
unfoldable pub read_device_settings : ℕ → Inst → List ℕ
read_device_settings dev s =
    if dev == device_all_number then print_all (max_dev_number - 1) 1 s else print_settings dev s

-- The characters that `EatDelimitor` skips.
unfoldable pub is_delimitor : ℕ → Bool
is_delimitor c = (c == b' ') || ((c == 9) || ((c == b',') || ((c == b':') || (c == 10))))

-- `EatDelimitor` from position `p`; each character skipped takes one of `fuel`.
unfoldable pub eat_delimitor : ℕ → Bytes → ℕ → Run ℕ
eat_delimitor zero a p = out_of_fuel
eat_delimitor (suc fuel) a p = elim (is_delimitor (a p)) [
  | true ↦ eat_delimitor fuel a (p + 1)
  | false ↦ ok p
]

-- How much of the text is copied: `min(count, sizeof(a) - 1)`.
abbrev pub copied_length : ℕ → ℕ
copied_length count = if ltb count 255 then count else 255

-- memcmp of the memory at `p` with a text
unfoldable pub matches : List ℕ → Bytes → ℕ → Bool
matches [] a p = true
matches (c ∷ cs) a p = (a p == c) && matches cs a (p + 1)

-- The four settings, by their names in the file.
pub data Setting : Type 0 where
  enabled async out_limit in_limit : Setting

abbrev pub setting_name : Setting → List ℕ
setting_name enabled = codes "Enabled:"
setting_name async = codes "Async:"
setting_name out_limit = codes "OutLimit:"
setting_name in_limit = codes "InLimit:"

-- The base handed to simple_strtoul.
abbrev pub setting_base : Setting → ℕ
setting_base enabled = 10
setting_base async = 10
setting_base out_limit = 0
setting_base in_limit = 0

abbrev pub store_setting : Setting → ℕ → Settings → Settings
store_setting enabled v t = record t { enabled = v }
store_setting async v t = record t { async = v }
store_setting out_limit v t = record t { out_limit = v }
store_setting in_limit v t = record t { in_limit = v }

-- The name that stands at `p`, tried in the order of the source.
unfoldable pub find_setting : Bytes → ℕ → Option Setting
find_setting a p =
    if matches (setting_name enabled) a p
    then some enabled
    else if matches (setting_name async) a p
    then some async
    else if matches (setting_name out_limit) a p
    then some out_limit
    else if matches (setting_name in_limit) a p
    then some in_limit
    else none

module _ (strtoul : Bytes → ℕ → ℕ → ℕ × ℕ) where
  -- The loop of `Write_Enabled` and `Write_Disabled` at `cur`, over a text that ends at `end`. `op` is
  -- what is done to each device named; each round takes one of `fuel`.
  unfoldable pub write_devices : (ℕ → Inst → Inst) → ℕ → Bytes → ℕ → ℕ → Inst → Run Inst
  write_devices op zero a end cur s = out_of_fuel
  write_devices op (suc fuel) a end cur s = eat_delimitor (suc fuel) a cur >>= λ p.
      let (dev, next) = strtoul a p 10 in
      let rest = write_devices op fuel a end next (op dev s) in
      if (p == next) || leb end p then ok s else rest

  -- `Write_Enabled` and `Write_Disabled`: `user` is the buffer written, `stack` the memory of `a`.
  unfoldable pub write_enabled : ℕ → Bytes → Bytes → ℕ → Inst → Run Inst
  write_enabled fuel stack user count s =
      let n = copied_length count in write_devices enable fuel (copied n user stack) n 0 s

  unfoldable pub write_disabled : ℕ → Bytes → Bytes → ℕ → Inst → Run Inst
  write_disabled fuel stack user count s =
      let n = copied_length count in write_devices disable fuel (copied n user stack) n 0 s

  -- The loop of `Write_DeviceSettings` for device `dev`; `t` is its local copy of the settings.
  unfoldable pub write_settings : ℕ → ℕ → Bytes → ℕ → ℕ → Settings → Inst → Run Inst
  write_settings zero dev a end cur t s = out_of_fuel
  write_settings (suc fuel) dev a end cur t s = eat_delimitor (suc fuel) a cur >>= λ p.
      if leb end p then ok s else elim (find_setting a p) [
        | none ↦ ok s
        | some f ↦
            let start = p + length (setting_name f) in
            let (v, next) = strtoul a start (setting_base f) in
            let t' = store_setting f v t in
            let rest =
              write_settings fuel dev a end next t' (set_device_settings dev (some t') s) in
            if start == next then ok s else rest
      ]

  -- `Write_DeviceSettings`: `none` for -EINVAL, else the new state.
  unfoldable pub write_device_settings : ℕ → Bytes → Bytes → ℕ → ℕ → Inst → Option (Run Inst)
  write_device_settings fuel stack user count dev s =
      let n = copied_length count in
      let (status, t) = get_device_settings dev s in
      elim status [
        | enodev ↦ none
        | got ↦ some (write_settings fuel dev (copied n user stack) n 0 t s)
      ]
