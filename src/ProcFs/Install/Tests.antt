-- ===== src/ProcFs/Install/Tests.antt =====
-- Runs of the installation of the proc files of side_dumper_procfs.c.
use ps2_side_dumper.Base.{
  ℕ, ◌+◌, ◌≡◌, refl, true, false, Option, none, some, ◌++◌, ltb, if◌then◌else◌, is_some,
}
use ps2_side_dumper.Dumper.{g_inst, enable}
use ps2_side_dumper.ProcFs.Install.{
  device_settings, device_xx, ProcDirs, install_proc_fs, install_enabled, install_disabled,
  install_settings, remove_proc_fs,
}
use ps2_side_dumper.ProcFs.Install.Removed.{there, is_entry, remove_proc_fs-install_proc_fs}

-- The first seven calls succeed.
abbrev answers : ℕ → Option ℕ
answers n = if ltb n 7 then some (n + 100) else none

abbrev nothing_yet : ProcDirs
nothing_yet = record { root_dir = none; settings_dir = none }

remove_proc_fs-install_proc_fs_example :
    let r = install_proc_fs answers g_inst nothing_yet in
    let (d', calls) = remove_proc_fs (enable 3 g_inst) r.dirs in
    (d' ≡ record { root_dir = none; settings_dir = none })
    × (is_some r.dirs.root_dir ≡ true)
    × (there (device_xx 2, some 103) (r.calls ++ calls) false
        ≡ is_entry (device_xx 2, some 103) device_settings r.dirs.root_dir)
unfolding install_proc_fs install_enabled install_disabled install_settings
remove_proc_fs-install_proc_fs_example =
    remove_proc_fs-install_proc_fs answers g_inst (enable 3 g_inst) nothing_yet
      (device_xx 2, some 103) refl
