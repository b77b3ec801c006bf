-- ===== src/Ohci/Hub/Irq.antt =====
-- The status change report of the root hub, `rh_send_irq` of portable-ohci-core.c.
use ps2_side_dumper.Base.{
  ℕ, zero, suc, ◌+◌, ◌*◌, ◌/◌, ◌%◌, ◌^◌, Option, none, some, List, [], length, take, set, get_or,
  bit_and, bit_or, ltb, ◌==◌, if◌then◌else◌,
}
use ps2_side_dumper.Mini.{min_u}
use ps2_side_dumper.Ohci.Hub.{HubRegs}

-- The loop of `rh_send_irq` from port `i` on: `data` is the array on the stack, of which only
-- byte 0 has been set. The result is none when a port's bit lies outside of the array.
unfoldable pub irq_loop : (ℕ → ℕ) → ℕ → ℕ → List ℕ → ℕ → Option (List ℕ × ℕ)
irq_loop port zero i buf ret = some (buf, ret)
irq_loop port (suc left) i buf ret =
    let at = (i + 1) / 8 in
    let changed = if bit_and (port i) 0x1f0000 == 0 then 0 else 1 in
    let byte = bit_or (get_or buf at 0) (changed * 2 ^ ((i + 1) % 8)) in
    let rest = irq_loop port left (i + 1) (set buf at byte) (ret + byte) in
    if ltb at (length buf) then rest else none

-- `rh_send_irq`: the length returned, and the bytes copied to `rh_data`
unfoldable pub rh_send_irq : HubRegs → List ℕ → ℕ → Option (ℕ × List ℕ)
rh_send_irq r stack rh_len =
    let ports = bit_and r.a 0xff in
    let first = if bit_and r.status 0x30000 == 0 then 0 else 1 in
    elim (irq_loop (λ i. r.port_status (i + 1)) ports 0 (set stack 0 first) first) [
      | none ↦ none
      | some (buf, ret) ↦
          let len = ports / 8 + 1 in
          if ltb 0 ret then some (len, take (min_u len (min_u rh_len 8)) buf) else some (0, [])
    ]
