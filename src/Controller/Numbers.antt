-- ===== src/Controller/Numbers.antt =====
-- String::to_int on decimal digits.
use raft_algorep.Base.{
  ℕ, ◌+◌, ◌-◌, ◌*◌, pos, int_max, leb_ℤ, true, false, [], ◌∷◌, ◌++◌, none, some, ok, fault,
  out_of_range, if◌then◌else◌, All, ◌≡◌, refl, ap, arith, Text, ◌==◌,
}
use raft_algorep.Controller.{
  split_space, is_digit, is_space, digits_from, signed, skip_spaces, of_number, with_sign, to_int,
}

-- The number that a text of digits denotes, after those that give `n`.
abbrev pub decimal : ℕ → Text → ℕ
decimal n [] = n
decimal n (c ∷ cs) = decimal (n * 10 + (c - 48)) cs

abbrev pub AllDigits : Text → Type 0
AllDigits cs = All (λ c. is_digit c ≡ true) cs

digits_from-decimal :
    (n : ℕ) (cs : Text) → AllDigits cs → digits_from (some n) cs ≡ some (decimal n cs)
digits_from-decimal n [] h = refl
digits_from-decimal n (c ∷ cs) h = rw h.0 (digits_from-decimal (n * 10 + (c - 48)) cs h.1)

pub digits_from-some :
    (c : ℕ) (cs : Text) → AllDigits (c ∷ cs) → digits_from none (c ∷ cs) ≡ some (decimal 0 (c ∷ cs))
digits_from-some c cs h = rw h.0 (digits_from-decimal (0 * 10 + (c - 48)) cs h.1)

pub number_read :
    (c : ℕ) (cs : Text)
    → AllDigits (c ∷ cs)
    → signed (skip_spaces (c ∷ cs)) ≡ some (pos (decimal 0 (c ∷ cs)))
number_read c cs h = rw (no_space, no_minus, no_plus) (ap (with_sign pos) (digits_from-some c cs h))
  where
    digit : is_digit c ≡ true
    digit = h.0

    no_space : is_space c ≡ false
    no_space = ground (arith, digit)

    no_minus : (c == 45) ≡ false
    no_minus = ground (arith, digit)

    no_plus : (c == 43) ≡ false
    no_plus = ground (arith, digit)

abbrev pub NoSpace : Text → Type 0
NoSpace cs = All (λ c. (c == 32) ≡ false) cs

pub AllDigits-NoSpace : (cs : Text) → AllDigits cs → NoSpace cs
AllDigits-NoSpace [] h = tt
AllDigits-NoSpace (c ∷ cs) h = (no_space, AllDigits-NoSpace cs h.1)
  where
    no_space : (c == 32) ≡ false
    no_space = ground (arith, h.0)

-- The text before the first space, if that has none, and the text after it.
pub split_space-append : (cs arg : Text) → NoSpace cs → split_space (cs ++ 32 ∷ arg) ≡ (cs, arg)
split_space-append [] arg h = refl
split_space-append (c ∷ cs) arg h = rw (split_space-append cs arg h.1, h.0) refl

range_lem :
    (n : ℕ)
    → of_number (some (pos n)) ≡ (if leb_ℤ (pos n) int_max then ok (pos n) else fault out_of_range)
range_lem n = ground arith

-- A text of decimal digits is read as its number if that is an int, and throws std::out_of_range,
-- which the caller does not catch, if it is larger.
pub to_int-decimal :
    (c : ℕ) (cs : Text)
    → AllDigits (c ∷ cs)
    → to_int (c ∷ cs) ≡ (
        if leb_ℤ (pos (decimal 0 (c ∷ cs))) int_max
        then ok (pos (decimal 0 (c ∷ cs)))
        else fault out_of_range)
unfolding to_int
to_int-decimal c cs h = rw (number_read c cs h) (range_lem (decimal 0 (c ∷ cs)))
