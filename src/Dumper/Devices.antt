-- ===== src/Dumper/Devices.antt =====
-- The table of device settings of side_dumper_core.c: what is read after what was written.
use ps2_side_dumper.Base.{
  ℕ, zero, suc, ◌<◌, ◌≡◌, refl, some, List, [], ◌∷◌, arith, ltb, ◌==◌, if◌then◌else◌, length,
  length-set, ltb→lt, ◌&&◌, get_elem?, get_or, set, Bool-cases, inl, inr,
}
use ps2_side_dumper.Mini.{Settings}
use ps2_side_dumper.Dumper.{
  Inst, max_devices, zero_settings, update_settings, enable, disable, set_device_settings, got,
  get_device_settings,
}

-- The array has its sixteen entries.
abbrev pub HasTable : Inst → Type 0
HasTable s = length s.dev_settings ≡ max_devices

-- What a write of entry `d` by `f` leaves to be read at `e`.
get_or-update :
    (ts : List Settings) (d e : ℕ) (f : Settings → Settings) (z : Settings) (t : Settings)
    → get_elem? ts d ≡ some t
    → get_or (set ts d (f t)) e z ≡ (if d == e then f (get_or ts e z) else get_or ts e z)
get_or-update [] d e f z t h = ground (arith, h)
get_or-update (x ∷ xs) zero zero f z t h = ground (arith, h)
get_or-update (x ∷ xs) zero (suc e) f z t h = ground arith
get_or-update (x ∷ xs) (suc d) zero f z t h = ground arith
get_or-update (x ∷ xs) (suc d) (suc e) f z t h = ground (arith, get_or-update xs d e f z t h)

get_elem?-some :
    {A : Type 0} (ts : List A) (d : ℕ) → d < length ts → (t : A) × (get_elem? ts d ≡ some t)
get_elem?-some [] d h = absurd (omega arith)
get_elem?-some (x ∷ xs) zero h = (x, refl)
get_elem?-some (x ∷ xs) (suc d) h = get_elem?-some xs d (omega arith)

update_settings_lem :
    (d e : ℕ) (f : Settings → Settings) (s : Inst)
    → HasTable s
    → d < max_devices
    → HasTable (update_settings d f s)
      × (get_or (update_settings d f s).dev_settings e zero_settings ≡ (
          if d == e
          then f (get_or s.dev_settings e zero_settings)
          else get_or s.dev_settings e zero_settings))
update_settings_lem d e f s v h =
    let (t, p) = get_elem?-some s.dev_settings d (omega arith) in
    ground (
      arith,
      p,
      length-set s.dev_settings d (f t),
      get_or-update s.dev_settings d e f zero_settings t p,
    )

-- With the table's sixteen entries, `SideDumper_Enable` sets the flag of the device named, if it
-- is one of the first sixteen, and leaves what is read of every other device, and the other
-- settings, as they were; so does `SideDumper_Disable`, clearing it.
pub get_device_settings-enable :
    (d e : ℕ) (s : Inst)
    → HasTable s
    → let (status, t) = get_device_settings e s in
      (get_device_settings e (enable d s) ≡ (
        if ltb e max_devices && (d == e) then (status, record t { enabled = 1 }) else (status, t)))
      × (get_device_settings e (disable d s) ≡ (
          if ltb e max_devices && (d == e)
          then (status, record t { enabled = 0 })
          else (status, t)))
unfolding get_device_settings enable disable
get_device_settings-enable d e s v = elim (Bool-cases (ltb d max_devices)) [
  | inl h ↦ ground (
    arith,
    h,
    update_settings_lem d e (λ t. record t { enabled = 1 }) s v (ltb→lt d max_devices h),
    update_settings_lem d e (λ t. record t { enabled = 0 }) s v (ltb→lt d max_devices h),
  )
  | inr h ↦ ground (arith, h)
]

-- With the table's sixteen entries, `SideDumper_GetDeviceSettings` reads back what
-- `SideDumper_SetDeviceSettings` stored for a device below sixteen; a call for another device does
-- not change what is read.
pub get_device_settings-set :
    (d e : ℕ) (t : Settings) (s : Inst)
    → HasTable s
    → get_device_settings e (set_device_settings d (some t) s)
      ≡ (if ltb e max_devices && (d == e) then (got, t) else get_device_settings e s)
unfolding get_device_settings set_device_settings
get_device_settings-set d e t s v = elim (Bool-cases (ltb d max_devices)) [
  | inl h ↦ ground (arith, h, update_settings_lem d e (λ _. t) s v (ltb→lt d max_devices h))
  | inr h ↦ ground (arith, h)
]

pub HasTable-kept :
    (d : ℕ) (t : Settings) (s : Inst)
    → HasTable s
    → HasTable (enable d s) × HasTable (disable d s) × HasTable (set_device_settings d (some t) s)
unfolding enable disable set_device_settings
HasTable-kept d t s v = elim (Bool-cases (ltb d max_devices)) [
  | inl h ↦ ground (
    arith,
    h,
    update_settings_lem d 0 (λ t. record t { enabled = 1 }) s v (ltb→lt d max_devices h),
    update_settings_lem d 0 (λ t. record t { enabled = 0 }) s v (ltb→lt d max_devices h),
    update_settings_lem d 0 (λ _. t) s v (ltb→lt d max_devices h),
  )
  | inr h ↦ ground (arith, h)
]
