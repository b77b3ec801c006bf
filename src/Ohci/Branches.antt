-- ===== src/Ohci/Branches.antt =====
-- The balancing of the 32 interrupt branches in portable-ohci-core.c: `ep_int_ballance`,
-- `ep_2_n_interval` and `ep_rev`. The loads are never negative: they start at 0, and unlinking
-- takes away only what linking added.
pub mod Loads
pub mod Bits
pub mod Slots
use ps2_side_dumper.Base.{
  ℕ, zero, suc, ◌+◌, ◌-◌, ◌*◌, ◌/◌, ◌%◌, ◌^◌, Bool, true, false, List, bit_or, ltb, if◌then◌else◌,
  get_or, set,
}

abbrev pub num_ints : ℕ
num_ints = 32

-- The search of `ep_int_ballance` for the least loaded branch, from `i` on.
unfoldable pub least_loaded : List ℕ → ℕ → ℕ → ℕ → ℕ
least_loaded loads zero i branch = branch
least_loaded loads (suc left) i branch =
    least_loaded loads left (i + 1)
      (if ltb (get_or loads i 0) (get_or loads branch 0) then i else branch)

-- Its second loop: `load` is added at `i`, `i + interval` and so on below 32. A positive interval
-- makes 32 rounds at most.
unfoldable pub add_loads : ℕ → ℕ → ℕ → ℕ → List ℕ → List ℕ
add_loads zero interval load i loads = loads
add_loads (suc fuel) interval load i loads = elim (ltb i num_ints) [
  | true ↦ add_loads fuel interval load (i + interval) (set loads i (get_or loads i 0 + load))
  | false ↦ loads
]

-- `ep_int_ballance`: the branch, and the new loads
unfoldable pub ep_int_ballance : List ℕ → ℕ → ℕ → ℕ × List ℕ
ep_int_ballance loads interval load =
    let branch = least_loaded loads num_ints 0 0 % interval in
    (branch, add_loads num_ints interval load branch loads)

-- The loop of `ep_2_n_interval` from `i` on, with so many rounds left before `i` is 5.
unfoldable pub interval_loop : ℕ → ℕ → ℕ → ℕ
interval_loop inter zero i = i
interval_loop inter (suc left) i = elim (ltb 1 (inter / 2 ^ i)) [
  | true ↦ interval_loop inter left (i + 1)
  | false ↦ i
]

-- `ep_2_n_interval`
unfoldable pub ep_2_n_interval : ℕ → ℕ
unfolding interval_loop
ep_2_n_interval inter = 2 ^ interval_loop inter 5 0

-- `ep_rev`, from bit `i` on
unfoldable pub rev_loop : ℕ → ℕ → ℕ → ℕ → ℕ → ℕ
rev_loop num_bits word zero i wout = wout
rev_loop num_bits word (suc left) i wout =
    rev_loop num_bits word left (i + 1) (bit_or wout (word / 2 ^ i % 2 * 2 ^ (num_bits - i - 1)))

unfoldable pub ep_rev : ℕ → ℕ → ℕ
unfolding rev_loop
ep_rev num_bits word = rev_loop num_bits word num_bits 0 0
