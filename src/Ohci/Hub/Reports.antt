-- ===== src/Ohci/Hub/Reports.antt =====
-- What the root hub's status change report says: `rh_send_irq` of portable-ohci-core.c.
use native.Mathlib.Numerals.{towards_suc}
use ps2_side_dumper.Base.{
  ℕ, zero, suc, ◌+◌, ◌*◌, ◌/◌, ◌%◌, ◌^◌, ◌≤◌, ◌<◌, ◌≡◌, refl, inl, inr, Bool, true, Option, none,
  some, List, [], ◌∷◌, arith, length, take, bit_and, bit_or, ltb, ◌==◌, if◌then◌else◌, Bool-cases,
  ==_iff,
}
use ps2_side_dumper.Base.Bits.{holds_from, holds_from_lem}
use ps2_side_dumper.Mini.{min_u}
use ps2_side_dumper.Ohci.Hub.{HubRegs}
use ps2_side_dumper.Ohci.Hub.Irq.{irq_loop, rh_send_irq}

-- 1 for a port with a change bit set in its register, else 0
abbrev pub changed : (ℕ → ℕ) → ℕ → ℕ
changed port i = if bit_and (port i) 0x1f0000 == 0 then 0 else 1

-- The bits of the ports from `i` on that have changed: bit i + 1 for port i
abbrev pub changed_bits : (ℕ → ℕ) → ℕ → ℕ → ℕ
changed_bits port zero i = 0
changed_bits port (suc left) i = changed port i * 2 ^ (i + 1) + changed_bits port left (i + 1)

-- A bit above the number is added to it.
adds_bit : ℕ → Bool
adds_bit v =
    let byte = v % 128 in
    let bit = v / 128 in
    if ltb byte (2 ^ (bit + 1)) then bit_or byte (2 ^ (bit + 1)) == byte + 2 ^ (bit + 1) else true

adds_bit_table : holds_from adds_bit 0 896 ≡ true
unfolding adds_bit holds_from
adds_bit_table = refl

keeps_bits : ℕ → Bool
keeps_bits v = bit_or v 0 == v

keeps_bits_table : holds_from keeps_bits 0 256 ≡ true
unfolding keeps_bits holds_from
keeps_bits_table = refl

keep_bits : (byte : ℕ) → byte < 256 → bit_or byte 0 ≡ byte
unfolding keeps_bits
keep_bits byte lt =
    (==_iff _ _).0
      (holds_from_lem keeps_bits 0 256 byte keeps_bits_table (omega arith) (omega arith))

power_le : (i : ℕ) → i < 7 → 2 ^ (i + 1) ≤ 128
power_le zero h = omega arith
power_le (suc zero) h = omega arith
power_le (suc (suc zero)) h = omega arith
power_le (suc (suc (suc zero))) h = omega arith
power_le (suc (suc (suc (suc zero)))) h = omega arith
power_le (suc (suc (suc (suc (suc zero))))) h = omega arith
power_le (suc (suc (suc (suc (suc (suc zero)))))) h = omega arith
power_le (suc (suc (suc (suc (suc (suc (suc i))))))) h = absurd (omega arith)

in_table :
    (byte i : ℕ) → byte < 128 → ((byte + 128 * i) % 128 ≡ byte) × ((byte + 128 * i) / 128 ≡ i)
in_table byte i h = omega arith

bit_or_sum :
    (byte i : ℕ) → i < 7 → byte < 2 ^ (i + 1) → bit_or byte (2 ^ (i + 1)) ≡ byte + 2 ^ (i + 1)
unfolding adds_bit
bit_or_sum byte i h lt =
    let small : byte < 128 = omega (arith, power_le i h) in
    let (low, high) = in_table byte i small in
    let entry =
      holds_from_lem adds_bit 0 896 (byte + 128 * i) adds_bit_table (omega arith) (omega arith) in
    let entry' = rw (adds_bit, low, high) at entry in ground (arith, entry')

-- One round of the loop on byte 0
bit_or-changed :
    (port : ℕ → ℕ) (byte i : ℕ)
    → i < 7
    → byte < 2 ^ (i + 1)
    → bit_or byte (changed port i * 2 ^ ((i + 1) % 8)) ≡ byte + changed port i * 2 ^ (i + 1)
bit_or-changed port byte i h lt =
    let low : (i + 1) % 8 ≡ i + 1 = omega arith in
    let not_set : 0 * 2 ^ (i + 1) ≡ 0 = omega arith in
    let one_set : 1 * 2 ^ (i + 1) ≡ 2 ^ (i + 1) = omega arith in
    let plain : byte + 0 ≡ byte = omega arith in
    rw low (elim (Bool-cases (bit_and (port i) 0x1f0000 == 0)) [
      | inl same ↦ rw (same, not_set, plain) (keep_bits byte (omega (arith, power_le i h)))
      | inr differs ↦ rw (differs, one_set) (bit_or_sum byte i h lt)
    ])

-- What the loop returns while all bits lie in byte 0
abbrev Reported : (ℕ → ℕ) → ℕ → ℕ → ℕ → List ℕ → ℕ → Option (List ℕ × ℕ) → Type 0
Reported port left i byte rest ret none = ⊥
Reported port left i byte rest ret (some (buf, ret')) =
    (buf ≡ (byte + changed_bits port left i) ∷ rest)
    × ((ret ≡ 0 → byte ≡ 0) → ret' ≡ 0 → byte + changed_bits port left i ≡ 0)
    × (ret ≡ 0 → byte + changed_bits port left i ≡ 0 → ret' ≡ 0)

round_added :
    (port : ℕ → ℕ) (left i byte byte' : ℕ) (rest : List ℕ) (ret : ℕ) (o : Option (List ℕ × ℕ))
    → byte' ≡ byte + changed port i * 2 ^ (i + 1)
    → Reported port left (i + 1) byte' rest (ret + byte') o
    → Reported port (suc left) i byte rest ret o
round_added port left i byte byte' rest ret none e r = r
round_added port left i byte byte' rest ret (some (buf, ret')) e (p, q, z) =
    let same : byte' + changed_bits port left (i + 1) ≡ byte + changed_bits port (suc left) i =
      omega (arith, e) in
    (
      rw (← same) p,
      λ before after. omega (arith, same, q (λ h. omega arith) after),
      λ before after. z (omega arith) (omega arith),
    )

power_step : (i : ℕ) → 2 ^ (i + 1 + 1) ≡ 2 * 2 ^ (i + 1)
power_step i = simp towards_suc (omega arith)

next_power : (byte c i : ℕ) → c ≤ 1 → byte < 2 ^ (i + 1) → byte + c * 2 ^ (i + 1) < 2 ^ (i + 1 + 1)
next_power byte zero i h lt = omega (arith, power_step i)
next_power byte (suc zero) i h lt = omega (arith, power_step i)
next_power byte (suc (suc c)) i h lt = absurd (omega arith)

irq_loop-Reported :
    (port : ℕ → ℕ) (left i byte : ℕ) (rest : List ℕ) (ret : ℕ)
    → i + left ≤ 7
    → byte < 2 ^ (i + 1)
    → Reported port left i byte rest ret (irq_loop port left i (byte ∷ rest) ret)
unfolding irq_loop
irq_loop-Reported port zero i byte rest ret h lt =
    let plain : byte + 0 ≡ byte = omega arith in
    (rw plain refl, λ before after. omega (arith, before after), λ before after. before)
irq_loop-Reported port (suc left) i byte rest ret h lt =
    let at : (i + 1) / 8 ≡ 0 = omega arith in
    let byte' = byte + changed port i * 2 ^ (i + 1) in
    let small : byte' < 2 ^ (i + 1 + 1) = next_power byte (changed port i) i (ground arith) lt in
    let sum = bit_or-changed port byte i (omega arith) lt in
    let inside : ltb 0 (suc (length rest)) ≡ true = ground arith in
    rw (at, irq_loop, sum, inside)
      (round_added port left i byte byte' rest ret
        (irq_loop port left (i + 1) (byte' ∷ rest) (ret + byte')) refl
        (irq_loop-Reported port left (i + 1) byte' rest (ret + byte') (omega arith) small))

-- The report: bit 0 for the hub itself and bit i + 1 for port i, and the length of a report with
-- no bit set is 0
abbrev pub status_change : HubRegs → ℕ
status_change r =
    (if bit_and r.status 0x30000 == 0 then 0 else 1)
    + changed_bits (λ i. r.port_status (i + 1)) (bit_and r.a 0xff) 0

abbrev Report : Type 0
Report = ℕ × List ℕ

-- The result, from what the loop leaves
abbrev answered : ℕ → ℕ → List ℕ → ℕ → Option Report
answered n rh_len buf ret =
    if ltb 0 ret
    then some (n / 8 + 1, take (min_u (n / 8 + 1) (min_u rh_len 8)) buf)
    else some (0, [])

abbrev pub report_of : ℕ → ℕ × List ℕ
report_of byte = if byte == 0 then (0, []) else (1, byte ∷ [])

-- What is copied to the buffer of what the loop leaves
copied_byte :
    (n rh_len x : ℕ) (rest : List ℕ)
    → n ≤ 7
    → 0 < rh_len
    → ◌≡◌ {A = Report} (n / 8 + 1, take (min_u (n / 8 + 1) (min_u rh_len 8)) (x ∷ rest)) (1, x ∷ [])
unfolding min_u
copied_byte n rh_len x rest ports room =
    let one : n / 8 + 1 ≡ 1 = omega arith in
    let least : min_u 1 (min_u rh_len 8) ≡ 1 = ground arith in rw (one, least) refl

loop_answer :
    (port : ℕ → ℕ) (n rh_len first : ℕ) (rest : List ℕ) (o : Option (List ℕ × ℕ))
    → n ≤ 7
    → 0 < rh_len
    → Reported port n 0 first rest first o
    → (buf : List ℕ) × (ret : ℕ) × (o ≡ some (buf, ret))
      × (answered n rh_len buf ret ≡ some (report_of (first + changed_bits port n 0)))
loop_answer port n rh_len first rest none ports room h = absurd h
loop_answer port n rh_len first rest (some (buf, ret)) ports room (p, q, z) = (
  buf,
  ret,
  refl,
  rw (p, copied_byte n rh_len (first + changed_bits port n 0) rest ports room)
      (ground (arith, q (λ e. e), z)),
)

-- For a hub with at most 7 ports and a buffer that is not empty, `rh_send_irq` writes inside of its
-- array, whatever was on the stack, and returns one byte, in which bit 0 says whether the hub's
-- status has changed and bit i + 1 whether port i has; if nothing has changed, it returns no byte.
pub rh_send_irq-Reports :
    (r : HubRegs) (x : ℕ) (rest : List ℕ) (rh_len : ℕ)
    → bit_and r.a 0xff ≤ 7
    → 0 < rh_len
    → rh_send_irq r (x ∷ rest) rh_len ≡ some (report_of (status_change r))
unfolding rh_send_irq
rh_send_irq-Reports r x rest rh_len ports room =
    let first : ℕ = if bit_and r.status 0x30000 == 0 then 0 else 1 in
    let port = λ (i : ℕ). r.port_status (i + 1) in
    let n = bit_and r.a 0xff in
    let (buf, ret, e, answer) =
      loop_answer port n rh_len first rest (irq_loop port n 0 (first ∷ rest) first) ports room
        (irq_loop-Reported port n 0 first rest first (omega arith) (ground arith)) in
    rw (e, rh_send_irq) answer

unset_byte :
    (port : ℕ → ℕ) (y : ℕ) (rest : List ℕ)
    → ((i : ℕ) → bit_and (port i) 0x1f0000 ≡ 0)
    → y < 256
    → irq_loop port 8 0 (0 ∷ y ∷ rest) 0 ≡ some (0 ∷ y ∷ rest, y)
unfolding irq_loop
unset_byte port y rest same small =
    let sum : 0 + y ≡ y = omega arith in
    rw (same 0, same 1, same 2, same 3, same 4, same 5, same 6, same 7, keep_bits y small, sum)
      (ground arith)

-- With 8 ports, and neither the hub's status nor any port changed, what happens to be on the stack
-- where byte 1 of the array lies is reported as changes, if it is not 0: that byte is never set.
pub rh_send_irq-unset :
    (r : HubRegs) (x y : ℕ) (rest : List ℕ) (rh_len : ℕ)
    → bit_and r.a 0xff ≡ 8
    → bit_and r.status 0x30000 ≡ 0
    → ((i : ℕ) → bit_and (r.port_status i) 0x1f0000 ≡ 0)
    → 0 < y
    → y < 256
    → 1 < rh_len
    → rh_send_irq r (x ∷ y ∷ rest) rh_len ≡ some (2, 0 ∷ y ∷ [])
unfolding rh_send_irq min_u
rh_send_irq-unset r x y rest rh_len ports clean same pos small room =
    let loop = unset_byte (λ i. r.port_status (i + 1)) y rest (λ i. same (i + 1)) small in
    rw (ports, rh_send_irq, clean, loop) (ground arith)
