-- ===== src/ProcFs/Parse.antt =====
-- The loops of `Write_Enabled`, `Write_Disabled` and `Write_DeviceSettings` of side_dumper_procfs.c.
use ps2_side_dumper.Base.{
  ℕ, zero, suc, ◌+◌, ◌≤◌, ◌<◌, ◌≡◌, ◌≢◌, false, ◌||◌, arith, leb, ◌==◌, if◌then◌else◌, Bool-cases,
  inl, inr,
}
use ps2_side_dumper.Base.Run.{Run, ok, fault, out_of_fuel, ◌>>=◌}
use ps2_side_dumper.Usb.{Bytes}
use ps2_side_dumper.Dumper.{Inst, zero_settings, enable, disable}
use ps2_side_dumper.Dumper.Devices.{HasTable, HasTable-kept}
use ps2_side_dumper.ProcFs.{is_delimitor, eat_delimitor, write_devices}

-- `EatDelimitor` stops at the first position that holds no delimiter.
abbrev Stops : Bytes → ℕ → ℕ → Run ℕ → Type 0
Stops a p q (ok r) = (p ≤ r) × (r ≤ q) × (is_delimitor (a r) ≡ false)
Stops a p q fault = ⊥
Stops a p q out_of_fuel = ⊥

eat_delimitor-Stops :
    (fuel : ℕ) (a : Bytes) (p q : ℕ)
    → is_delimitor (a q) ≡ false
    → p ≤ q
    → q < p + fuel
    → Stops a p q (eat_delimitor fuel a p)
unfolding eat_delimitor
eat_delimitor-Stops zero a p q stop le lt = absurd (omega arith)
eat_delimitor-Stops (suc fuel) a p q stop le lt = elim (Bool-cases (is_delimitor (a p))) [
  | inl d ↦
      let ne : p ≢ q = λ e. cc in
      ground (arith, d, eat_delimitor-Stops fuel a (p + 1) q stop (omega arith) (omega arith))
  | inr d ↦ rw (d, eat_delimitor, Stops) (omega arith, le, d)
]

-- The run ended, and the table of settings still has its entries.
abbrev pub Keeps : Run Inst → Type 0
Keeps (ok s) = HasTable s
Keeps fault = ⊥
Keeps out_of_fuel = ⊥

-- What simple_strtoul is taken to do on the text up to a position `q`: it goes forward, and does
-- not go past `q`, where there is neither a digit nor a delimiter.
abbrev pub StopsAt : (Bytes → ℕ → ℕ → ℕ × ℕ) → Bytes → ℕ → Type 0
StopsAt strtoul a q =
    (is_delimitor (a q) ≡ false)
    × ((p base : ℕ) → p ≤ q → (p ≤ (strtoul a p base).1) × ((strtoul a p base).1 ≤ q))

module _ (strtoul : Bytes → ℕ → ℕ → ℕ × ℕ) (a : Bytes) (q : ℕ) (law : StopsAt strtoul a q) where
  -- Whatever is done to the devices, if it keeps the table.
  write_devices-Keeps :
      (op : ℕ → Inst → Inst) (fuel end cur : ℕ) (s : Inst)
      → ((d : ℕ) (s : Inst) → HasTable s → HasTable (op d s))
      → HasTable s
      → cur ≤ q
      → q < cur + fuel
      → Keeps (write_devices strtoul op fuel a end cur s)
  unfolding write_devices
  write_devices-Keeps op zero end cur s keep v le lt = absurd (omega arith)
  write_devices-Keeps op (suc fuel) end cur s keep v le lt =
      round (eat_delimitor (suc fuel) a cur) (eat_delimitor-Stops (suc fuel) a cur q law.0 le lt)
        (λ next lo hi d. write_devices-Keeps op fuel end next (op d s) keep (keep d s v) hi lo)
    where
      round :
          (r : Run ℕ)
          → Stops a cur q r
          → ((next : ℕ)
              → q < next + fuel
              → next ≤ q
              → (d : ℕ) → Keeps (write_devices strtoul op fuel a end next (op d s)))
          → Keeps (
              r >>= λ p.
              let (dev, next) = strtoul a p 10 in
              let rest = write_devices strtoul op fuel a end next (op dev s) in
              if (p == next) || leb end p then ok s else rest)
      round (ok p) h ih =
          let l = law.1 p 10 (omega arith) in
          let next = (strtoul a p 10).1 in
          elim (Bool-cases (p == next)) [
            | inl same ↦ ground (arith, same, v)
            | inr new ↦
                let forward : p < next = ground (arith, new, l) in
                ground (arith, new, v, ih next (omega arith) l.1 (strtoul a p 10).0)
          ]
      round fault h ih = absurd h
      round out_of_fuel h ih = absurd h

  -- If the memory behind the text holds, at some position, a character that is no delimiter and
  -- that simple_strtoul does not go past, and simple_strtoul never goes back, then writing to the
  -- files of the enabled and of the disabled devices comes to an end without a fault, and the table
  -- of the settings, which may be changed, still has sixteen entries: one round and one more for
  -- each position before that character is enough.
  pub write_devices-Ends :
      (fuel end : ℕ) (s : Inst)
      → HasTable s
      → q < fuel
      → Keeps (write_devices strtoul enable fuel a end 0 s)
        × Keeps (write_devices strtoul disable fuel a end 0 s)
  write_devices-Ends fuel end s v lt = (
    write_devices-Keeps enable fuel end 0 s (λ d s v. (HasTable-kept d zero_settings s v).0) v
        (omega arith) (omega arith),
    write_devices-Keeps disable fuel end 0 s (λ d s v. (HasTable-kept d zero_settings s v).1) v
        (omega arith) (omega arith),
  )
