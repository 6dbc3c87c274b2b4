-- ===== src/Indices/BTree/Encode.antt =====
-- btree.py, `_encode`: padded numbers sort as text in the order of their values.
use vitruvio.Prelude.{
  ℕ, zero, suc, ◌+◌, ◌*◌, ◌/◌, ◌%◌, ◌^◌, ◌≤◌, ◌<◌, leb, length, le_text, max, ◌≡◌, refl, ap, ap₂,
  ◌∙◌, arith,
}
use vitruvio.Indices.Projection.{int}
use vitruvio.Indices.BTree.{digits, width, encode_int, encode}
use native.Mathlib.Nat.{pow-suc, div-add-mod', mod-lt, mod-eq_of_lt, add-mul-mod_self_left}

pow_pos : (w : ℕ) → 0 < 10 ^ w
pow_pos zero = omega arith
pow_pos (suc w) = omega (arith, pow-suc 10 w, pow_pos w)

head_lt : (p x y r s : ℕ) → x < y → r < p → x * p + r < y * p + s
head_lt p x y r s h k = grind arith

-- One more digit in front of the last w.
mod-pow_suc : (w a : ℕ) → a % 10 ^ suc w ≡ a / 10 ^ w % 10 * 10 ^ w + a % 10 ^ w
mod-pow_suc w a =
    let p = 10 ^ w in
    let q = a / p in
    let whole : a ≡ (q % 10 * p + a % p) + 10 ^ suc w * (q / 10) = omega (
      arith,
      ap (λ (t : ℕ). t * (q / 10)) (pow-suc 10 w),
      div-add-mod' a p,
      ap (λ (t : ℕ). t * p) (div-add-mod' q 10),
    ) in
    ap (λ (t : ℕ). t % 10 ^ suc w) whole
    ∙ add-mul-mod_self_left (q % 10 * p + a % p) (10 ^ suc w) (q / 10)
    ∙ mod-eq_of_lt (
        below p (q % 10) (a % p) (10 ^ suc w) (pow-suc 10 w) (mod-lt q (omega arith))
          (mod-lt a (pow_pos w)))
  where
    below : (p x r t : ℕ) → t ≡ p * 10 → x < 10 → r < p → x * p + r < t
    below p x r t e h k = omega (arith, head_lt p x 10 r 0 h k)

-- The texts of the last w digits are in the order of the numbers that these make.
digits_order_mod : (w a b : ℕ) → le_text (digits w a) (digits w b) ≡ leb (a % 10 ^ w) (b % 10 ^ w)
unfolding digits le_text
digits_order_mod zero a b = ground arith
digits_order_mod (suc w) a b = ground (
  arith,
  digits_order_mod w a b,
  mod-pow_suc w a,
  mod-pow_suc w b,
  mod-lt a (pow_pos w),
  mod-lt b (pow_pos w),
  head_lt (10 ^ w) (a / 10 ^ w % 10) (b / 10 ^ w % 10) (a % 10 ^ w) (b % 10 ^ w),
  head_lt (10 ^ w) (b / 10 ^ w % 10) (a / 10 ^ w % 10) (b % 10 ^ w) (a % 10 ^ w),
)

length-digits : (w n : ℕ) → length (digits w n) ≡ w
unfolding digits
length-digits zero n = refl
length-digits (suc w) n = ap suc (length-digits w n)

width-le : (k fuel n : ℕ) → n < 10 ^ suc k → width fuel n ≤ suc k
unfolding width
width-le k zero n h = omega arith
width-le zero (suc fuel) n h = ground arith
width-le (suc k) (suc fuel) n h =
    ground (arith, width-le k fuel (n / 10) (omega (arith, pow-suc 10 (suc k))))

encode_int_lem : (n : ℕ) → n < 10 ^ 20 → encode_int n ≡ digits 20 n
unfolding encode_int
encode_int_lem n h =
    let e : max 20 (width n n) ≡ 20 = omega (arith, width-le 19 n n h) in ap (λ w. digits w n) e

-- Numbers of at most twenty digits are encoded in twenty characters, and the texts are in the
-- order of the numbers.
pub encode_order :
    (a b : ℕ)
    → a < 10 ^ 20
    → b < 10 ^ 20
    → (le_text (encode (int a)) (encode (int b)) ≡ leb a b) × (length (encode (int a)) ≡ 20)
unfolding encode
encode_order a b ha hb =
    rw (encode_int_lem a ha, encode_int_lem b hb)
      (digits_order_mod 20 a b ∙ ap₂ leb (mod-eq_of_lt ha) (mod-eq_of_lt hb), length-digits 20 a)
