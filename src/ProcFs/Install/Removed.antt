-- ===== src/ProcFs/Install/Removed.antt =====
-- What `RemoveProcFs` of side_dumper_procfs.c takes away of what `InstallProcFs` made.
use mathlib.Core.Bool.{false≢true}
use ps2_side_dumper.Base.{
  ℕ, zero, suc, ◌+◌, ◌≡◌, refl, ◌∙◌, ◌⊎◌, inl, inr, Bool, true, false, ◌&&◌, ◌||◌, Option, none,
  some, List, [], ◌∷◌, ◌++◌, arith, ◌==◌, if◌then◌else◌, is_some, ltb, Bool-cases, Option-cases, ap,
}
use ps2_side_dumper.Dumper.{Inst, max_devices, get_device_settings}
use ps2_side_dumper.ProcFs.{device_all_number}
use ps2_side_dumper.ProcFs.Install.{
  EntryName, side_dumper, enabled, disabled, device_settings, all_devices, device_xx, ProcCall,
  proc_mkdir, create_proc_entry, set_handlers, remove_proc_entry, ProcDirs, Installed, set_entry,
  Handler, read_settings_proc, write_settings_proc, install_devices, install_settings,
  install_disabled, install_enabled, install_proc_fs, remove_devices, remove_settings, remove_root,
  remove_proc_fs,
}

-- An entry: its name, and the directory it is in
abbrev pub ProcEntry : Type 0
ProcEntry = EntryName × Option ℕ

abbrev pub same_name : EntryName → EntryName → Bool
same_name side_dumper side_dumper = true
same_name enabled enabled = true
same_name disabled disabled = true
same_name device_settings device_settings = true
same_name all_devices all_devices = true
same_name (device_xx d) (device_xx e) = d == e
same_name _ _ = false

abbrev pub same_dir : Option ℕ → Option ℕ → Bool
same_dir none none = true
same_dir (some d) (some e) = d == e
same_dir _ _ = false

abbrev pub is_entry : ProcEntry → EntryName → Option ℕ → Bool
is_entry e name dir = same_name e.0 name && same_dir e.1 dir

-- Whether an entry is there after these calls, where it was there before or not: it is made by a call
-- that succeeds and taken away by a removal of its name from its directory.
abbrev pub there : ProcEntry → List ProcCall → Bool → Bool
there e [] b = b
there e (proc_mkdir name dir answer ∷ cs) b =
    there e cs (if is_entry e name dir then is_some answer || b else b)
there e (create_proc_entry name dir answer ∷ cs) b =
    there e cs (if is_entry e name dir then is_some answer || b else b)
there e (set_handlers entry reader writer number ∷ cs) b = there e cs b
there e (remove_proc_entry name dir ∷ cs) b = there e cs (if is_entry e name dir then false else b)

there-append :
    (e : ProcEntry) (cs ds : List ProcCall) (b : Bool)
    → there e (cs ++ ds) b ≡ there e ds (there e cs b)
there-append e [] ds b = refl
there-append e (proc_mkdir name dir answer ∷ cs) ds b = there-append e cs ds _
there-append e (create_proc_entry name dir answer ∷ cs) ds b = there-append e cs ds _
there-append e (set_handlers entry reader writer number ∷ cs) ds b = there-append e cs ds b
there-append e (remove_proc_entry name dir ∷ cs) ds b = there-append e cs ds _

there-set_entry :
    (e : ProcEntry) (o : Option ℕ) (r : Handler) (w : Option Handler) (k : Option ℕ)
    (cs : List ProcCall) (b : Bool)
    → there e (set_entry o r w k ++ cs) b ≡ there e cs b
there-set_entry e none r w k cs b = refl
there-set_entry e (some _) r w k cs b = refl

-- The loops meet the file of this entry.
met : ProcEntry → Option ℕ → ℕ → ℕ → Bool
met e dir zero dev = false
met e dir (suc left) dev =
    ltb dev max_devices && (is_entry e (device_xx dev) dir || met e dir left (dev + 1))

remove_devices-met :
    (e : ProcEntry) (s : Inst) (dir : Option ℕ) (left dev : ℕ) (b : Bool)
    → there e (remove_devices s dir left dev) b ≡ (if met e dir left dev then false else b)
unfolding met remove_devices get_device_settings
remove_devices-met e s dir zero dev b = refl
remove_devices-met e s dir (suc left) dev b = ground (
  arith,
  remove_devices-met e s dir left (dev + 1) b,
  remove_devices-met e s dir left (dev + 1) false,
)

install_devices-met :
    (answers : ℕ → Option ℕ) (e : ProcEntry) (s : Inst) (dir : Option ℕ) (left dev n : ℕ) (b : Bool)
    → met e dir left dev ≡ false
    → there e (install_devices answers s dir left dev n) b ≡ b
unfolding met install_devices get_device_settings
install_devices-met answers e s dir zero dev n b h = refl
install_devices-met answers e s dir (suc left) dev n b h = elim (Bool-cases (ltb dev max_devices)) [
  | inl more ↦ ground (
    arith,
    there-set_entry e (answers n) read_settings_proc (some write_settings_proc) (some dev)
        (install_devices answers s dir left (dev + 1) (n + 1)) b,
    install_devices-met answers e s dir left (dev + 1) (n + 1) b,
  )
  | inr done ↦ ground arith
]

-- The loops pass over an entry that has no device's name.
met-other :
    (name : EntryName) (p dir : Option ℕ) (left dev : ℕ)
    → ((k : ℕ) → same_name name (device_xx k) ≡ false)
    → met (name, p) dir left dev ≡ false
unfolding met
met-other name p dir zero dev h = refl
met-other name p dir (suc left) dev h = ground (arith, h dev, met-other name p dir left (dev + 1) h)

-- The calls of an installation that succeeds, but for those of the loop
abbrev first_calls : ℕ → ℕ → ℕ → ℕ → Option ℕ → List ProcCall
first_calls root a b dir all =
    proc_mkdir side_dumper none (some root)
    ∷ create_proc_entry enabled (some root) (some a)
    ∷ create_proc_entry disabled (some root) (some b)
    ∷ proc_mkdir device_settings (some root) (some dir)
    ∷ create_proc_entry all_devices (some dir) all
    ∷ []

-- What a success tells: the two directories are known, and the entries that are there.
abbrev Complete : (ℕ → Option ℕ) → Inst → Installed → Type 0
Complete answers s r =
    (root : ℕ) × (a : ℕ) × (b : ℕ) × (dir : ℕ) × (r.dirs
      ≡ record { root_dir = some root; settings_dir = some dir })
    × ((e : ProcEntry) (was : Bool)
        → there e r.calls was
          ≡ there e (install_devices answers s (some dir) 99 1 5)
              (there e (first_calls root a b dir (answers 4)) was))

install_proc_fs-Complete :
    (answers : ℕ → Option ℕ) (s : Inst) (d : ProcDirs)
    → (install_proc_fs answers s d).success ≡ true
    → Complete answers s (install_proc_fs answers s d)
unfolding install_proc_fs install_enabled install_disabled install_settings
install_proc_fs-Complete answers s d h = elim (Option-cases (answers 0)) [
  | inl p0 ↦ absurd (false≢true (rw (p0, install_proc_fs) at h))
  | inr (root, p0) ↦ elim (Option-cases (answers 1)) [
    | inl p1 ↦ absurd (false≢true (rw (p0, install_proc_fs, p1, install_enabled) at h))
    | inr (a, p1) ↦ elim (Option-cases (answers 2)) [
      | inl p2 ↦
          absurd
            (false≢true (rw (p0, install_proc_fs, p1, install_enabled, p2, install_disabled) at h))
      | inr (b, p2) ↦ elim (Option-cases (answers 3)) [
        | inl p3 ↦ absurd (
            false≢true (
              rw
                (
                  p0, install_proc_fs, p1, install_enabled, p2, install_disabled, p3,
                  install_settings,
                )
                at h))
        | inr (dir, p3) ↦ (
          root,
          a,
          b,
          dir,
          ground arith,
          λ e was.
              rw
                (
                  p0, install_proc_fs, p1, install_enabled, p2, install_disabled, p3,
                  install_settings, p0, p1, p2, p3,
                )
                (there-set_entry e (answers 4) read_settings_proc none (some device_all_number)
                  (install_devices answers s (some dir) 99 1 5) _),
        )
      ]
    ]
  ]
]

-- The removal after the loops
abbrev last_calls : ℕ → ℕ → List ProcCall
last_calls root dir =
    remove_proc_entry all_devices (some dir)
    ∷ remove_proc_entry device_settings none
    ∷ remove_proc_entry enabled (some root)
    ∷ remove_proc_entry disabled (some root)
    ∷ remove_proc_entry side_dumper none
    ∷ []

remove_all-there :
    (e : ProcEntry) (s : Inst) (root dir : ℕ) (b : Bool)
    → there e (remove_settings s (some dir) ++ remove_root (some root)) b
      ≡ there e (last_calls root dir) (if met e (some dir) 99 1 then false else b)
unfolding remove_settings remove_root
remove_all-there e s root dir b =
    rw
      (
        there-append e
            (remove_devices s (some dir) 99 1
              ++ (remove_proc_entry all_devices (some dir)
                  ∷ remove_proc_entry device_settings none
                  ∷ []))
            (remove_root (some root)) b,
        there-append e (remove_devices s (some dir) 99 1)
            (remove_proc_entry all_devices (some dir) ∷ remove_proc_entry device_settings none ∷ [])
            b,
        remove_devices-met e s (some dir) 99 1 b,
      )
      refl

both_loops :
    (answers : ℕ → Option ℕ) (e : ProcEntry) (s : Inst) (dir : ℕ) (b : Bool)
    → (if met e (some dir) 99 1
        then false
        else there e (install_devices answers s (some dir) 99 1 5) b)
      ≡ (if met e (some dir) 99 1 then false else b)
both_loops answers e s dir b = ground (arith, install_devices-met answers e s (some dir) 99 1 5 b)

-- What is left of the entries that were made.
left_over :
    (e : ProcEntry) (root a b dir : ℕ) (all : Option ℕ)
    → there e
        (last_calls root dir)
        (if met e (some dir) 99 1 then false else there e (first_calls root a b dir all) false)
      ≡ is_entry e device_settings (some root)
left_over (side_dumper, p) root a b dir all =
    ground (arith, met-other side_dumper p (some dir) 99 1 (λ k. refl))
left_over (enabled, p) root a b dir all =
    ground (arith, met-other enabled p (some dir) 99 1 (λ k. refl))
left_over (disabled, p) root a b dir all =
    ground (arith, met-other disabled p (some dir) 99 1 (λ k. refl))
left_over (device_settings, p) root a b dir all =
    ground (arith, met-other device_settings p (some dir) 99 1 (λ k. refl))
left_over (all_devices, p) root a b dir all =
    ground (arith, met-other all_devices p (some dir) 99 1 (λ k. refl))
left_over (device_xx d, p) root a b dir all = ground arith

-- Where `InstallProcFs` has returned 0, `RemoveProcFs` forgets both directories and takes away every
-- entry that was made, whatever the answers for the files of the devices were, but for one: the
-- directory device_settings itself, which is looked for in another directory than it was made in,
-- stays.
pub remove_proc_fs-install_proc_fs :
    (answers : ℕ → Option ℕ) (s s' : Inst) (d : ProcDirs) (e : ProcEntry)
    → (install_proc_fs answers s d).success ≡ true
    → let r = install_proc_fs answers s d in
      let (d', calls) = remove_proc_fs s' r.dirs in
      (d' ≡ record { root_dir = none; settings_dir = none })
      × (is_some r.dirs.root_dir ≡ true)
      × (there e (r.calls ++ calls) false ≡ is_entry e device_settings r.dirs.root_dir)
unfolding remove_proc_fs
remove_proc_fs-install_proc_fs answers s s' d e h =
    let (root, a, b, dir, same, c) = install_proc_fs-Complete answers s d h in
    let r = install_proc_fs answers s d in
    let all = answers 4 in
    let taken = remove_settings s' (some dir) ++ remove_root (some root) in
    (
      refl,
      rw same refl,
      rw same (
          there-append e r.calls taken false
          ∙ ap (there e taken) (c e false)
          ∙ remove_all-there e s' root dir _
          ∙ ap (there e (last_calls root dir)) (both_loops answers e s dir _)
          ∙ left_over e root a b dir all),
    )

-- Where the directory side_dumper is made but one of the next three calls fails, `InstallProcFs`
-- returns an error, the directory is still there, and `RemoveProcFs` called next takes away all
-- that was made.
pub remove_proc_fs-failed :
    (answers : ℕ → Option ℕ) (s s' : Inst) (e : ProcEntry) (root : ℕ)
    → answers 0 ≡ some root
    → (answers 1 ≡ none) ⊎ ((answers 2 ≡ none) ⊎ (answers 3 ≡ none))
    → let r = install_proc_fs answers s (record { root_dir = none; settings_dir = none }) in
      (r.success ≡ false)
      × (there (side_dumper, none) r.calls false ≡ true)
      × (there e (r.calls ++ (remove_proc_fs s' r.dirs).1) false ≡ false)
unfolding install_proc_fs install_enabled install_disabled install_settings remove_proc_fs
    remove_root remove_settings
remove_proc_fs-failed answers s s' e root p0 (inl p1) = ground arith
remove_proc_fs-failed answers s s' e root p0 (inr (inl p2)) = ground arith
remove_proc_fs-failed answers s s' e root p0 (inr (inr p3)) = ground arith
