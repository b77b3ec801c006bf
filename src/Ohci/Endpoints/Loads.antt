-- ===== src/Ohci/Endpoints/Loads.antt =====
-- The loads of the interrupt branches in portable-ohci-core.c, while `ep_link` adds to them by
-- `ep_int_ballance` and `ep_unlink` takes away.

use ps2_side_dumper.Base.{
  ℕ, zero, suc, ◌+◌, ◌-◌, ◌<◌, ◌≡◌, refl, ap, ◌∙◌, List, [], ◌∷◌, ◌++◌, arith, ltb, ltb→lt, ◌==◌,
  ==_iff, length, length-set, get_or, set, get_or-set_self, get_or-set_ne, Bool-cases, inl, inr,
}
use ps2_side_dumper.Ohci.Branches.{num_ints, add_loads, ep_int_ballance}
use ps2_side_dumper.Ohci.Branches.Loads.{
  added, added_here, added_past, added_next, apart, in_bounds, ep_int_ballance-loads,
}
use ps2_side_dumper.Ohci.Endpoints.{sub_loads}

pub sub_loads-added :
    (fuel interval load i : ℕ) (loads : List ℕ) (j : ℕ)
    → 0 < interval
    → length loads ≡ num_ints
    → num_ints < i + fuel + 1
    → j < num_ints
    → get_or (sub_loads fuel interval load i loads) j 0 ≡ get_or loads j 0 - added interval load i j
unfolding sub_loads
sub_loads-added zero interval load i loads j pos len enough lt = ground arith
sub_loads-added (suc fuel) interval load i loads j pos len enough lt =
    elim (Bool-cases (ltb i num_ints)) [
      | inl more ↦
          let less = ltb→lt i num_ints more in
          let there = in_bounds i loads len less in
          let step =
            sub_loads-added fuel interval load (i + interval)
              (set loads i (get_or loads i 0 - load)) j pos
              (length-set loads i (get_or loads i 0 - load) ∙ len) (omega arith) lt in
          rw (more, sub_loads, step)
            (elim (Bool-cases (i == j)) [
              | inl same ↦ rw (← (==_iff i j).0 same) (
                  rw
                    (
                      get_or-set_self loads i (get_or loads i 0 - load) 0 there,
                      added_past interval load i pos,
                      added_here interval load i,
                    )
                    (omega arith))
              | inr other ↦
                  rw (get_or-set_ne loads i j (get_or loads i 0 - load) 0 (apart i j other)) (
                    ap (λ x. get_or loads j 0 - x)
                      (added_next interval load i j pos (apart i j other)))
            ])
      | inr done ↦ rw (done, sub_loads) (ground (arith, done))
    ]

length-sub_loads :
    (fuel interval load i : ℕ) (loads : List ℕ)
    → length (sub_loads fuel interval load i loads) ≡ length loads
unfolding sub_loads
length-sub_loads zero interval load i loads = refl
length-sub_loads (suc fuel) interval load i loads = elim (Bool-cases (ltb i num_ints)) [
  | inl more ↦
      rw (more, sub_loads)
        (length-sub_loads fuel interval load (i + interval) (set loads i (get_or loads i 0 - load))
          ∙ length-set loads i (get_or loads i 0 - load))
  | inr done ↦ rw (done, sub_loads) refl
]

length-add_loads :
    (fuel interval load i : ℕ) (loads : List ℕ)
    → length (add_loads fuel interval load i loads) ≡ length loads
unfolding add_loads
length-add_loads zero interval load i loads = refl
length-add_loads (suc fuel) interval load i loads = elim (Bool-cases (ltb i num_ints)) [
  | inl more ↦
      rw (more, add_loads)
        (length-add_loads fuel interval load (i + interval) (set loads i (get_or loads i 0 + load))
          ∙ length-set loads i (get_or loads i 0 + load))
  | inr done ↦ rw (done, add_loads) refl
]

pub length-ep_int_ballance :
    (loads : List ℕ) (interval load : ℕ)
    → length (ep_int_ballance loads interval load).1 ≡ length loads
unfolding ep_int_ballance
length-ep_int_ballance loads interval load = length-add_loads num_ints interval load _ loads

-- What a linked endpoint keeps: `int_interval`, `int_load` and `int_branch`
pub record Share : Type 0 where
  pub interval : ℕ
  pub load : ℕ
  pub branch : ℕ

-- What the linked endpoints ask of branch `j`
abbrev pub shared : List Share → ℕ → ℕ
shared [] j = 0
shared (s ∷ ss) j = added s.interval s.load s.branch j + shared ss j

abbrev pub AllPositive : List Share → Type 0
AllPositive [] = Unit
AllPositive (s ∷ ss) = (0 < s.interval) × (s.branch < s.interval) × AllPositive ss

-- Each branch's load is the sum of what the linked endpoints ask of it.
pub record Exact (loads : List ℕ) (ss : List Share) : Type 0 where
  pub size : length loads ≡ num_ints
  pub sums : (j : ℕ) → j < num_ints → get_or loads j 0 ≡ shared ss j
  pub positive : AllPositive ss

shared_middle :
    (before after : List Share) (s : Share) (j : ℕ)
    → shared (before ++ (s ∷ after)) j
      ≡ added s.interval s.load s.branch j + shared (before ++ after) j
shared_middle [] after s j = refl
shared_middle (x ∷ xs) after s j = omega (arith, shared_middle xs after s j)

AllPositive-append :
    (before after : List Share) (s : Share)
    → AllPositive (before ++ (s ∷ after))
    → (0 < s.interval) × AllPositive (before ++ after)
AllPositive-append [] after s p = (p.0, p.2)
AllPositive-append (x ∷ xs) after s p =
    let (pos, rest) = AllPositive-append xs after s p.2 in (pos, (p.0, p.1, rest))

pub links-Exact :
    (loads : List ℕ) (ss : List Share) (interval load : ℕ)
    → 0 < interval
    → Exact loads ss
    → Exact (ep_int_ballance loads interval load).1 (
        record {
          interval = interval;
          load = load;
          branch = (ep_int_ballance loads interval load).0;
        }
        ∷ ss)
links-Exact loads ss interval load pos v = record {
  size = length-ep_int_ballance loads interval load ∙ v.size;
  sums = λ j lt.
      let facts = ep_int_ballance-loads loads interval load j pos v.size lt in
      let before = v.sums j lt in omega (arith, facts.1.0, before);
  positive =
      (pos, (ep_int_ballance-loads loads interval load 0 pos v.size (omega arith)).0, v.positive);
}

pub unlinks-Exact :
    (loads : List ℕ) (before after : List Share) (s : Share)
    → Exact loads (before ++ (s ∷ after))
    → Exact (sub_loads num_ints s.interval s.load s.branch loads) (before ++ after)
unlinks-Exact loads before after s v =
    let (pos, rest) = AllPositive-append before after s v.positive in
    record {
      size = length-sub_loads num_ints s.interval s.load s.branch loads ∙ v.size;
      sums = λ j lt.
          let less =
            sub_loads-added num_ints s.interval s.load s.branch loads j pos v.size (omega arith)
              lt in
          let sum = v.sums j lt in omega (arith, less, sum, shared_middle before after s j);
      positive = rest;
    }
