-- ===== src/Document/Runtime.antt =====
-- What src/document.js uses of the language and of node:util: isDeepStrictEqual, the order of values
-- under `<` and `<=`, the arithmetic of doubles, and JSON.stringify (`none` is undefined). A number is
-- the 64-bit pattern of its double, as in `Json`.
use syncio.Base.{
  ◌≡◌, refl, ℕ, zero, suc, ◌+◌, ◌-◌, ◌*◌, ◌/◌, ◌%◌, ◌^◌, Bool, true, false, not, ◌&&◌, ◌||◌, String,
  Option, none, some, leb, ltb, eqb, ◌==◌, max_safe_integer, if◌then◌else◌,
}
use syncio.Json.{Value, undefined, null, bool, num, str, is_finite}

pub record Runtime : Type 0 where
  pub deep_equal : Value → Value → Bool
  pub less : Value → Value → Bool
  pub at_most : Value → Value → Bool
  pub add : ℕ → ℕ → ℕ
  pub multiply : ℕ → ℕ → ℕ
  pub divide : ℕ → ℕ → ℕ
  pub to_json : Value → Option String

-- The highest power of two that is at most `n`, counted in halvings.
unfoldable pub log_from : ℕ → ℕ → ℕ
log_from zero n = 0
log_from (suc fuel) n = let rest = log_from fuel (n / 2) in if leb n 1 then 0 else suc rest

-- The double of a natural number that one holds exactly, so below 2 ^ 53.
unfoldable pub double_of : ℕ → ℕ
unfolding log_from
double_of n =
    let k = log_from 53 n in
    if eqb n 0 then 0 else (k + 1023) * 2 ^ 52 + (n * 2 ^ (52 - k) - 2 ^ 52)

abbrev exponent : ℕ → ℕ
exponent bits = bits / 2 ^ 52 % 2 ^ 11

abbrev mantissa : ℕ → ℕ
mantissa bits = 2 ^ 52 + bits % 2 ^ 52

-- The double as a natural number, if it is one that Number.isSafeInteger accepts and not negative;
-- both zeros are 0.
unfoldable pub natural_of : ℕ → Option ℕ
natural_of bits =
    let e = exponent bits in
    let whole = mantissa bits / 2 ^ (1075 - e) in
    if eqb (bits % 2 ^ 63) 0
    then some 0
    else if leb 1023 e
        && leb e 1075
        && ltb bits (2 ^ 63)
        && eqb (whole * 2 ^ (1075 - e)) (mantissa bits)
        && leb whole max_safe_integer
    then some whole
    else none

-- `a === b` of two numbers: both zeros are equal, and NaN is equal to nothing.
unfoldable pub number_equal : ℕ → ℕ → Bool
number_equal a b =
    eqb (a % 2 ^ 63) 0 && eqb (b % 2 ^ 63) 0 || eqb a b && (is_finite a || eqb (a % 2 ^ 52) 0)

-- `a === b` of two values, of which an array or an object is equal to none: the source compares them
-- with copies.
unfoldable pub strict_equal : Value → Value → Bool
unfolding number_equal
strict_equal undefined undefined = true
strict_equal null null = true
strict_equal (bool true) (bool b) = b
strict_equal (bool false) (bool b) = not b
strict_equal (num m) (num n) = number_equal m n
strict_equal (str s) (str t) = s == t
strict_equal _ _ = false

doubles :
    (double_of 1 ≡ 0x3FF0000000000000)
    × (double_of 10000 ≡ 0x40C3880000000000)
    × (natural_of (double_of 9007199254740991) ≡ some 9007199254740991)
    × (natural_of 0x3FE0000000000000 ≡ none)
unfolding double_of natural_of
doubles = (refl, refl, refl, refl)
