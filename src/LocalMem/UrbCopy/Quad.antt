-- ===== src/LocalMem/UrbCopy/Quad.antt =====
-- `QuadCopy` of portable-ohci-ps2.c, by its instructions: a round loads four registers of 16 bytes and
-- then stores them, and the loop ends when the source's address is the end. The addresses are taken
-- to be multiples of 16, as those instructions want them, and not to wrap around.
use mathlib.Core.Path.{subst}
use ps2_side_dumper.Base.{
  ℕ, zero, suc, ◌+◌, ◌-◌, ◌*◌, ◌/◌, ◌<◌, ◌≤◌, ◌≡◌, ◌≢◌, refl, ap, ◌∙◌, true, false, ◌&&◌, Option,
  none, some, arith, ◌==◌, ltb, leb, if◌then◌else◌, Bool-cases, inl, inr,
}
use ps2_side_dumper.Usb.{Bytes}
use ps2_side_dumper.LocalMem.UrbCopy.{copy_bytes, quad_bytes}
use ps2_side_dumper.LocalMem.UrbCopy.Contents.{outside}

-- The loop, from these addresses on
unfoldable pub quad_loop : ℕ → ℕ → ℕ → ℕ → Bytes → Option Bytes
quad_loop zero dest src end memory = none
quad_loop (suc fuel) dest src end memory =
    let memory' = copy_bytes dest src 64 memory in
    let rest = quad_loop fuel (dest + 64) (src + 64) end memory' in
    if src + 64 == end then some memory' else rest

unfoldable pub quad_copy : ℕ → ℕ → ℕ → ℕ → Bytes → Option Bytes
quad_copy fuel dest src bytes memory = quad_loop fuel dest src (src + bytes) memory

-- The copy and its source share no byte.
abbrev pub Disjoint : ℕ → ℕ → ℕ → Type 0
Disjoint dest src n = (i j : ℕ) → i < n → j < n → dest + i ≢ src + j

-- A copy in two parts
copy_parts :
    (dest src n : ℕ) (memory : Bytes) (a : ℕ)
    → Disjoint dest src (64 + n)
    → copy_bytes (dest + 64) (src + 64) n (copy_bytes dest src 64 memory) a
      ≡ copy_bytes dest src (64 + n) memory a
copy_parts dest src n memory a apart =
    elim (Bool-cases (leb (dest + 64) a && ltb a (dest + 64 + n))) [
      | inl second ↦
          let i : ℕ = a - (dest + 64) in
          let lt : i < n = ground (arith, second) in
          let whole : (leb dest a && ltb a (dest + (64 + n))) ≡ true = ground (arith, second) in
          let same : src + 64 + i ≡ src + (a - dest) = ground (arith, second) in
          rw (second, whole)
            (outside dest src 64 memory (src + 64 + i) (λ j less same.
                apart j (64 + i) (omega (arith, less)) (omega (arith, lt)) (omega (arith, same)))
              ∙ ap memory same)
      | inr first ↦
          rw first
            (ap (λ b. if b then memory (src + (a - dest)) else memory a) (ground (arith, first)))
    ]

abbrev pub Copies : ℕ → ℕ → ℕ → Bytes → Option Bytes → Type 0
Copies dest src n memory none = ⊥
Copies dest src n memory (some memory') = (a : ℕ) → memory' a ≡ copy_bytes dest src n memory a

-- A later part of the two ranges
apart_later : (dest src n : ℕ) → Disjoint dest src (64 + n) → Disjoint (dest + 64) (src + 64) n
apart_later dest src n apart = λ i j lt lt' same.
    apart (64 + i) (64 + j) (omega (arith, lt)) (omega (arith, lt')) (omega (arith, same))

later_Copies :
    (dest src n : ℕ) (memory : Bytes) (o : Option Bytes)
    → Disjoint dest src (64 + n)
    → Copies (dest + 64) (src + 64) n (copy_bytes dest src 64 memory) o
    → Copies dest src (64 + n) memory o
later_Copies dest src n memory none apart c = c
later_Copies dest src n memory (some memory') apart c =
    λ a. c a ∙ copy_parts dest src n memory a apart

quad_loop-Copies :
    (fuel rounds dest src : ℕ) (memory : Bytes)
    → rounds < fuel
    → Disjoint dest src (64 * suc rounds)
    → Copies dest src
        (64 * suc rounds)
        memory
        (quad_loop fuel dest src (src + 64 * suc rounds) memory)
unfolding quad_loop
quad_loop-Copies zero rounds dest src memory lt apart = absurd (omega (arith, lt))
quad_loop-Copies (suc fuel) zero dest src memory lt apart =
    let end : (src + 64 == src + 64) ≡ true = ground arith in rw end (λ a. refl)
quad_loop-Copies (suc fuel) (suc rounds) dest src memory lt apart =
    let more : (src + 64 == src + 64 * suc (suc rounds)) ≡ false = ground arith in
    let size : 64 * suc (suc rounds) ≡ 64 + 64 * suc rounds = omega arith in
    let end : src + 64 * suc (suc rounds) ≡ src + 64 + 64 * suc rounds = omega arith in
    let apart' : Disjoint dest src (64 + 64 * suc rounds) = subst (Disjoint dest src) size apart in
    rw (more, end, size)
      (later_Copies dest src (64 * suc rounds) memory
        (quad_loop fuel (dest + 64) (src + 64) (src + 64 + 64 * suc rounds)
          (copy_bytes dest src 64 memory))
        apart'
        (quad_loop-Copies fuel rounds (dest + 64) (src + 64) (copy_bytes dest src 64 memory)
          (omega (arith, lt)) (apart_later dest src (64 * suc rounds) apart')))

-- `QuadCopy` of the bytes that are allocated for a buffer, from a source that shares no byte with the
-- destination, ends, within one round for 64 bytes, and memory is then as after one copy of all these
-- bytes.
pub quad_copy-Copies :
    (fuel len dest src : ℕ) (memory : Bytes)
    → quad_bytes len ≤ 64 * fuel
    → Disjoint dest src (quad_bytes len)
    → Copies dest src (quad_bytes len) memory (quad_copy fuel dest src (quad_bytes len) memory)
unfolding quad_copy
quad_copy-Copies fuel len dest src memory le apart =
    let size : quad_bytes len ≡ 64 * suc (len / 64) = omega arith in
    rw size (
      quad_loop-Copies fuel (len / 64) dest src memory (omega (arith, le))
        (subst (Disjoint dest src) size apart))
