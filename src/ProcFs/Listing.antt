-- ===== src/ProcFs/Listing.antt =====
-- What `Read_Enabled`, `Read_Disabled` and `Read_DeviceSettings` of side_dumper_procfs.c show.
use ps2_side_dumper.Base.{
  ℕ, zero, suc, ◌+◌, ◌<◌, ◌≡◌, refl, Bool, true, false, not, List, [], ◌∷◌, ◌++◌, arith, codes,
  ◌==◌, if◌then◌else◌, get_or,
}
use ps2_side_dumper.Text.{dec_pad}
use ps2_side_dumper.Dumper.{Inst, max_devices, zero_settings, get_device_settings}
use ps2_side_dumper.Dumper.Devices.{HasTable}
use ps2_side_dumper.ProcFs.{list_devices, read_enabled, read_disabled}

-- The flag of a device in the table.
abbrev pub is_on : Inst → ℕ → Bool
is_on s d = not ((get_or s.dev_settings d zero_settings).enabled == 0)

-- The numbers of the devices of a list whose flag is `want`, each as "%02u ".
abbrev pub shown : Bool → Inst → List ℕ → List ℕ
shown want s [] = []
shown want s (d ∷ ds) =
    if (if is_on s d then want else not want)
    then dec_pad 2 d ++ (codes " " ++ shown want s ds)
    else shown want s ds

abbrev pub from_to : ℕ → ℕ → List ℕ
from_to d zero = []
from_to d (suc n) = d ∷ from_to (d + 1) n

list_devices-shown :
    (want : Bool) (n left dev : ℕ) (s : Inst)
    → HasTable s
    → dev + n ≡ max_devices
    → n < left
    → list_devices want left dev s ≡ shown want s (from_to dev n)
unfolding list_devices get_device_settings
list_devices-shown want n zero dev s v e lt = absurd (omega arith)
list_devices-shown want zero (suc left) dev s v e lt = ground arith
list_devices-shown want (suc n) (suc left) dev s v e lt =
    ground (arith, list_devices-shown want n left (dev + 1) s v (omega arith) (omega arith))

-- With sixteen settings in the table, the two lists show, in order, the devices 1 to 15: each is
-- in the list of the enabled devices if its flag is set, and else in the list of the disabled
-- ones.
pub read_enabled-shown :
    (s : Inst)
    → HasTable s
    → (read_enabled s
        ≡ codes "SideDumper: enabled devices = [ " ++ (shown true s (from_to 1 15) ++ codes "]\n"))
      × (read_disabled s
          ≡ codes "SideDumper: disabled devices = [ "
            ++ (shown false s (from_to 1 15) ++ codes "]\n"))
unfolding read_enabled read_disabled
read_enabled-shown s v = (
  rw (list_devices-shown true 15 99 1 s v refl (omega arith), read_enabled),
  rw (list_devices-shown false 15 99 1 s v refl (omega arith), read_disabled),
)
