-- ===== src/ProcFs/Install.antt =====
-- The directory of the proc files: `InstallProcFs` and `RemoveProcFs` of side_dumper_procfs.c. The
-- file system itself is not part of this repository: what proc_mkdir and create_proc_entry return is
-- an argument, the n-th answer for the n-th call, and the calls made are part of the result. The
-- messages are left out.
pub mod Removed
mod Tests
use ps2_side_dumper.Base.{
  ℕ, zero, suc, ◌+◌, ◌-◌, Bool, true, false, Option, none, some, List, [], ◌∷◌, ◌++◌,
}
use ps2_side_dumper.Dumper.{Inst, get_device_settings, GetStatus, got, enodev}
use ps2_side_dumper.ProcFs.{max_dev_number, device_all_number}

-- The names of the entries. `device_xx n` is the text that sprintf makes of "device_%02u".
pub data EntryName : Type 0 where
  side_dumper enabled disabled device_settings all_devices : EntryName
  device_xx : ℕ → EntryName

-- The functions that are put into an entry
pub data Handler : Type 0 where
  read_enabled_proc write_enabled_proc read_disabled_proc write_disabled_proc : Handler
  read_settings_proc write_settings_proc : Handler

-- A call, with the directory it is made in (none for NULL) and its answer (none for NULL), or the
-- functions and the number that are put into an entry.
pub data ProcCall : Type 0 where
  proc_mkdir : EntryName → Option ℕ → Option ℕ → ProcCall
  create_proc_entry : EntryName → Option ℕ → Option ℕ → ProcCall
  set_handlers : ℕ → Handler → Option Handler → Option ℕ → ProcCall
  remove_proc_entry : EntryName → Option ℕ → ProcCall

-- `pRootDir` and `pSettingsDir` of `g_Inst`
pub record ProcDirs : Type 0 where
  pub root_dir : Option ℕ
  pub settings_dir : Option ℕ

-- Whether `InstallProcFs` returns 0, what it leaves in `g_Inst`, and the calls it made.
pub record Installed : Type 0 where
  pub success : Bool
  pub dirs : ProcDirs
  pub calls : List ProcCall

abbrev pub ebusy : ProcDirs → List ProcCall → Installed
ebusy d cs = record { success = false; dirs = d; calls = cs }

abbrev pub after_calls : List ProcCall → Installed → Installed
after_calls cs r = record r { calls = cs ++ r.calls }

-- What is put into an entry that was made; nothing where there is none.
abbrev pub set_entry : Option ℕ → Handler → Option Handler → Option ℕ → List ProcCall
set_entry none reader writer number = []
set_entry (some entry) reader writer number = set_handlers entry reader writer number ∷ []

-- The loop over the devices, from device `dev` on, which is the n-th call
unfoldable pub install_devices : (ℕ → Option ℕ) → Inst → Option ℕ → ℕ → ℕ → ℕ → List ProcCall
install_devices answers s dir zero dev n = []
install_devices answers s dir (suc left) dev n =
    let rest = install_devices answers s dir left (dev + 1) (n + 1) in
    elim (get_device_settings dev s).0 [
      | enodev ↦ []
      | got ↦
          create_proc_entry (device_xx dev) dir (answers n)
          ∷ (set_entry (answers n) read_settings_proc (some write_settings_proc) (some dev) ++ rest)
    ]

-- From the directory device_settings on
unfoldable pub install_settings : (ℕ → Option ℕ) → Inst → ProcDirs → Installed
install_settings answers s d =
    let d' = record d { settings_dir = answers 3 } in
    let made = proc_mkdir device_settings d.root_dir (answers 3) ∷ [] in
    elim (answers 3) [
      | none ↦ ebusy d' made
      | some _ ↦ record {
        success = true;
        dirs = d';
        calls =
            made
            ++ (create_proc_entry all_devices (answers 3) (answers 4)
                ∷ (set_entry (answers 4) read_settings_proc none (some device_all_number)
                    ++ install_devices answers s (answers 3) (max_dev_number - 1) 1 5));
      }
    ]

-- From the file disabled on
unfoldable pub install_disabled : (ℕ → Option ℕ) → Inst → ProcDirs → Installed
install_disabled answers s d =
    let made = create_proc_entry disabled d.root_dir (answers 2) ∷ [] in
    elim (answers 2) [
      | none ↦ ebusy d made
      | some entry ↦
          after_calls
            (made ++ (set_handlers entry read_disabled_proc (some write_disabled_proc) none ∷ []))
            (install_settings answers s d)
    ]

-- From the file enabled on
unfoldable pub install_enabled : (ℕ → Option ℕ) → Inst → ProcDirs → Installed
install_enabled answers s d =
    let made = create_proc_entry enabled d.root_dir (answers 1) ∷ [] in
    elim (answers 1) [
      | none ↦ ebusy d made
      | some entry ↦
          after_calls
            (made ++ (set_handlers entry read_enabled_proc (some write_enabled_proc) none ∷ []))
            (install_disabled answers s d)
    ]

-- `InstallProcFs`; where it was called before, it says so and goes on.
unfoldable pub install_proc_fs : (ℕ → Option ℕ) → Inst → ProcDirs → Installed
install_proc_fs answers s d =
    let d' = record d { root_dir = answers 0 } in
    let made = proc_mkdir side_dumper none (answers 0) ∷ [] in
    elim (answers 0) [
      | none ↦ ebusy d' made
      | some _ ↦ after_calls made (install_enabled answers s d')
    ]

-- The loop of `RemoveProcFs`
unfoldable pub remove_devices : Inst → Option ℕ → ℕ → ℕ → List ProcCall
remove_devices s dir zero dev = []
remove_devices s dir (suc left) dev =
    let rest = remove_devices s dir left (dev + 1) in
    elim (get_device_settings dev s).0 [
      | enodev ↦ []
      | got ↦ remove_proc_entry (device_xx dev) dir ∷ rest
    ]

-- The files of the devices are removed from their directory; the directory's own entry is looked for
-- in the root of the proc file system.
unfoldable pub remove_settings : Inst → Option ℕ → List ProcCall
remove_settings s none = []
remove_settings s (some dir) =
    remove_devices s (some dir) (max_dev_number - 1) 1
    ++ (remove_proc_entry all_devices (some dir) ∷ remove_proc_entry device_settings none ∷ [])

unfoldable pub remove_root : Option ℕ → List ProcCall
remove_root none = []
remove_root (some dir) =
    remove_proc_entry enabled (some dir)
    ∷ remove_proc_entry disabled (some dir)
    ∷ remove_proc_entry side_dumper none
    ∷ []

-- `RemoveProcFs`: what it leaves in `g_Inst`, and its calls
unfoldable pub remove_proc_fs : Inst → ProcDirs → ProcDirs × List ProcCall
remove_proc_fs s d = (
  record { root_dir = none; settings_dir = none },
  remove_settings s d.settings_dir ++ remove_root d.root_dir,
)
