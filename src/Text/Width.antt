-- ===== src/Text/Width.antt =====
-- How many characters the decimal conversions produce.
use ps2_side_dumper.Base.{
  ℕ, zero, suc, ◌+◌, ◌-◌, ◌/◌, ◌%◌, ◌≤◌, ◌≡◌, refl, List, [], ◌∷◌, arith, length, length-append,
  replicate,
}
use ps2_side_dumper.Text.{digit, digits_loop, dec, dec_pad}

length-digits_loop-le :
    (f base n : ℕ) (out : List ℕ) → length (digits_loop f base n out) ≤ f + length out
unfolding digits_loop
length-digits_loop-le zero base n out = omega arith
length-digits_loop-le (suc f) base n out =
    ground (arith, length-digits_loop-le f base (n / base) (digit (n % base) ∷ out))

pub length-dec-le : (n : ℕ) → length (dec n) ≤ 20
unfolding dec
length-dec-le n = omega (arith, length-digits_loop-le 20 10 n [])

length-replicate : (n c : ℕ) → length (replicate n c) ≡ n
length-replicate zero c = refl
length-replicate (suc n) c = omega (arith, length-replicate n c)

pub length-dec_pad-le : (w n : ℕ) → length (dec_pad w n) ≤ w + 20
unfolding dec_pad
length-dec_pad-le w n = omega (
  arith,
  length-append (replicate (w - length (dec n)) 48) (dec n),
  length-replicate (w - length (dec n)) 48,
  length-dec-le n,
)
