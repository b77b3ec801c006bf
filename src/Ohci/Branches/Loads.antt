-- ===== src/Ohci/Branches/Loads.antt =====
-- `ep_int_ballance` of portable-ohci-core.c.
use ps2_side_dumper.Base.{
  ℕ, zero, suc, ◌+◌, ◌-◌, ◌%◌, ◌≤◌, ◌<◌, ◌≡◌, ◌≢◌, refl, false, List, arith, ltb, ltb→lt, ◌==◌,
  ==_iff, ap, ◌∙◌, ◌&&◌, leb, if◌then◌else◌, length, length-set, get_or, set, get_or-set_self,
  get_or-set_ne, Bool-cases, inl, inr,
}
use native.Mathlib.Nat.{mod-lt, mod-eq_of_lt, mod-eq-sub-mod, zero-mod, sub_self}
use ps2_side_dumper.Ohci.Branches.{num_ints, least_loaded, add_loads, ep_int_ballance}

-- The branch found is no more loaded than any branch looked at, and than the one started with.
least_loaded-le :
    (loads : List ℕ) (left i branch j : ℕ)
    → (get_or loads (least_loaded loads left i branch) 0 ≤ get_or loads branch 0)
      × (i ≤ j
          → j < i + left
          → get_or loads (least_loaded loads left i branch) 0 ≤ get_or loads j 0)
unfolding least_loaded
least_loaded-le loads zero i branch j = (omega arith, λ le lt. absurd (omega arith))
least_loaded-le loads (suc left) i branch j =
    elim (Bool-cases (ltb (get_or loads i 0) (get_or loads branch 0))) [
      | inl less ↦
          let ih = least_loaded-le loads left (i + 1) i j in
          rw (less, least_loaded)
            (
              ground (arith, less, ih),
              λ le lt. elim (Bool-cases (i == j)) [
                | inl e ↦ rw (← (==_iff i j).0 e) ih.0
                | inr ne ↦ ih.1 (ground (arith, ne)) (omega arith)
              ],
            )
      | inr more ↦
          let ih = least_loaded-le loads left (i + 1) branch j in
          rw (more, least_loaded)
            (
              ih.0,
              λ le lt. elim (Bool-cases (i == j)) [
                | inl e ↦ rw (← (==_iff i j).0 e) (ground (arith, more, ih))
                | inr ne ↦ ih.1 (ground (arith, ne)) (omega arith)
              ],
            )
    ]

-- What the second loop adds to branch `j`: it goes through the branches from `i` on that are
-- congruent to `i` by the interval.
abbrev pub added : ℕ → ℕ → ℕ → ℕ → ℕ
added interval load i j = if leb i j && ((j - i) % interval == 0) then load else 0

pub added_here : (interval load i : ℕ) → added interval load i i ≡ load
added_here interval load i = rw (sub_self i, zero-mod interval) (ground arith)

pub added_past : (interval load i : ℕ) → 0 < interval → added interval load (i + interval) i ≡ 0
added_past interval load i pos = ground arith

sub_twice_lem : (i interval j : ℕ) → j - i - interval ≡ j - (i + interval)
sub_twice_lem i interval j = omega arith

added_far :
    (interval load i j : ℕ)
    → i + interval ≤ j
    → added interval load (i + interval) j ≡ added interval load i j
added_far interval load i j h =
    let sub_twice = sub_twice_lem i interval j in
    rw (mod-eq-sub-mod {n = j - i} {m = interval} (omega arith), sub_twice) (ground arith)

pub added_next :
    (interval load i j : ℕ)
    → 0 < interval
    → i ≢ j
    → added interval load (i + interval) j ≡ added interval load i j
added_next interval load i j pos ne = elim (Bool-cases (leb (i + interval) j)) [
  | inl far ↦ added_far interval load i j (ground (arith, far))
  | inr near ↦ elim (Bool-cases (leb i j)) [
    | inl le ↦
        let e = mod-eq_of_lt {n = j - i} {m = interval} (ground (arith, near, pos)) in
        rw (e, near, le) (ground (arith, le, ne))
    | inr less ↦ rw (near, less) refl
  ]
]

pub apart : (i j : ℕ) → (i == j) ≡ false → i ≢ j
apart i j h e = ground (arith, h, e)

pub in_bounds : (i : ℕ) (loads : List ℕ) → length loads ≡ num_ints → i < num_ints → i < length loads
in_bounds i loads len h = omega arith

add_loads-added :
    (fuel interval load i : ℕ) (loads : List ℕ) (j : ℕ)
    → 0 < interval
    → length loads ≡ num_ints
    → num_ints < i + fuel + 1
    → j < num_ints
    → get_or (add_loads fuel interval load i loads) j 0 ≡ get_or loads j 0 + added interval load i j
unfolding add_loads
add_loads-added zero interval load i loads j pos len enough lt = ground arith
add_loads-added (suc fuel) interval load i loads j pos len enough lt =
    elim (Bool-cases (ltb i num_ints)) [
      | inl more ↦
          let less = ltb→lt i num_ints more in
          let there = in_bounds i loads len less in
          let step =
            add_loads-added fuel interval load (i + interval)
              (set loads i (get_or loads i 0 + load)) j pos
              (length-set loads i (get_or loads i 0 + load) ∙ len) (omega arith) lt in
          rw (more, add_loads, step)
            (elim (Bool-cases (i == j)) [
              | inl same ↦ rw (← (==_iff i j).0 same) (
                  rw
                    (
                      get_or-set_self loads i (get_or loads i 0 + load) 0 there,
                      added_past interval load i pos,
                      added_here interval load i,
                    )
                    (omega arith))
              | inr other ↦
                  rw (get_or-set_ne loads i j (get_or loads i 0 + load) 0 (apart i j other)) (
                    ap (λ x. get_or loads j 0 + x)
                      (added_next interval load i j pos (apart i j other)))
            ])
      | inr done ↦ rw (done, add_loads) (ground (arith, done))
    ]

-- For a positive interval, `ep_int_ballance` returns a branch below the interval, and in the
-- schedule's 32 loads it adds the new load to exactly the branches from there on that are
-- congruent to it by the interval, and leaves the others as they were. The branch is the one least
-- loaded of all 32, taken modulo the interval.
pub ep_int_ballance-loads :
    (loads : List ℕ) (interval load j : ℕ)
    → 0 < interval
    → length loads ≡ num_ints
    → j < num_ints
    → ((ep_int_ballance loads interval load).0 < interval)
      × ((get_or (ep_int_ballance loads interval load).1 j 0
            ≡ get_or loads j 0 + added interval load (ep_int_ballance loads interval load).0 j)
          × (((ep_int_ballance loads interval load).0 ≡ least_loaded loads num_ints 0 0 % interval)
              × (get_or loads (least_loaded loads num_ints 0 0) 0 ≤ get_or loads j 0)))
unfolding ep_int_ballance
ep_int_ballance-loads loads interval load j pos len lt =
    let least = least_loaded loads num_ints 0 0 in
    (
      mod-lt least pos,
      (
        add_loads-added num_ints interval load (least % interval) loads j pos len (omega arith) lt,
        (refl, (least_loaded-le loads num_ints 0 0 j).1 (omega arith) lt),
      ),
    )
