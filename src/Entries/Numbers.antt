-- ===== src/Entries/Numbers.antt =====
-- A number and its decimal text.
use raft_algorep.Base.{
  ℕ, zero, suc, ◌+◌, ◌-◌, ◌*◌, ◌/◌, ◌%◌, ◌<◌, ℤ, pos, negsuc, Bool, true, false, Option, not, ◌&&◌,
  [], ◌∷◌, ◌++◌, some, none, All-append, Text, ltb, ltb→lt, not_ltb→le, ◌==◌, ◌≡◌, refl, sym, subst,
  ap, ◌∙◌, arith, int_laws,
}
use raft_algorep.Controller.{is_digit, digits_from, with_sign, negate, signed, skip_spaces}
use raft_algorep.Controller.Numbers.{
  decimal, AllDigits, NoSpace, AllDigits-NoSpace, digits_from-some, number_read,
}
use raft_algorep.Entries.{digits, number_text, int_text}

-- A text without a line's end.
abbrev pub one_line : Text → Bool
one_line [] = true
one_line (c ∷ cs) = not (c == 10) && one_line cs

decimal-append :
    (n : ℕ) (cs : Text) (c : ℕ) → decimal n (cs ++ c ∷ []) ≡ decimal n cs * 10 + (c - 48)
decimal-append n [] c = refl
decimal-append n (x ∷ cs) c = decimal-append (n * 10 + (x - 48)) cs c

-- A text of digits, at least one, of the value `n`.
pub record Decimal (n : ℕ) (t : Text) : Type 0 where
  pub first : ℕ
  pub rest : Text
  pub not_empty : t ≡ first ∷ rest
  pub all_digits : AllDigits t
  pub value : decimal 0 t ≡ n

digit : (d : ℕ) → d < 10 → is_digit (48 + d) ≡ true
digit d h = ground arith

single : (n : ℕ) → n < 10 → Decimal n ((48 + n) ∷ [])
single n h = record {
  first = 48 + n;
  rest = [];
  not_empty = refl;
  all_digits = (digit n h, tt);
  value = omega arith;
}

longer :
    (m d n : ℕ) (t : Text) → d < 10 → m * 10 + d ≡ n → Decimal m t → Decimal n (t ++ (48 + d) ∷ [])
longer m d n t h e q = record {
  first = q.first;
  rest = q.rest ++ (48 + d) ∷ [];
  not_empty = ap (λ s. s ++ (48 + d) ∷ []) q.not_empty;
  all_digits = All-append (λ c. is_digit c ≡ true) t ((48 + d) ∷ []) q.all_digits (digit d h, tt);
  value = decimal-append 0 t (48 + d) ∙ omega (arith, q.value);
}

digits-Decimal : (fuel n : ℕ) → n < fuel → Decimal n (digits fuel n)
unfolding digits
digits-Decimal zero n h = absurd (omega arith)
digits-Decimal (suc fuel) n h = sized (digits-Decimal fuel) (ltb n 10) refl
  where
    sized :
        ((m : ℕ) → m < fuel → Decimal m (digits fuel m))
        → (small : Bool) → ltb n 10 ≡ small
        → Decimal n (elim small [
          | true ↦ (48 + n) ∷ []
          | false ↦ digits fuel (n / 10) ++ (48 + n % 10) ∷ []
        ])
    sized ih true e = single n (ltb→lt n 10 e)
    sized ih false e =
        longer (n / 10) (n % 10) n (digits fuel (n / 10)) (omega arith) (omega arith)
          (ih (n / 10) (omega (arith, not_ltb→le n 10 e)))

number_text-Decimal : (n : ℕ) → Decimal n (number_text n)
number_text-Decimal n = digits-Decimal (suc n) n (omega arith)

Decimal-read : {n : ℕ} {t : Text} → Decimal n t → signed (skip_spaces t) ≡ some (pos n)
Decimal-read {n} {t} q = rw q.not_empty (
    number_read q.first q.rest (subst AllDigits q.not_empty q.all_digits)
    ∙ ap (λ k. some (pos k)) (ap (decimal 0) (sym q.not_empty) ∙ q.value))

Decimal-digits : {n : ℕ} {t : Text} → Decimal n t → digits_from none t ≡ some n
Decimal-digits {n} {t} q = rw q.not_empty (
    digits_from-some q.first q.rest (subst AllDigits q.not_empty q.all_digits)
    ∙ ap some (ap (decimal 0) (sym q.not_empty) ∙ q.value))

negate-suc : (n : ℕ) → negate (suc n) ≡ negsuc n
negate-suc n = omega int_laws

-- The text of an int is read as that int.
pub int_text-read : (i : ℤ) → signed (skip_spaces (int_text i)) ≡ some i
unfolding int_text
int_text-read (pos n) = Decimal-read (number_text-Decimal n)
int_text-read (negsuc n) =
    ap (with_sign negate) (Decimal-digits (number_text-Decimal (suc n))) ∙ ap some (negate-suc n)

pub int_text-NoSpace : (i : ℤ) → NoSpace (int_text i)
unfolding int_text
int_text-NoSpace (pos n) = AllDigits-NoSpace (number_text n) (number_text-Decimal n).all_digits
int_text-NoSpace (negsuc n) =
    (refl, AllDigits-NoSpace (number_text (suc n)) (number_text-Decimal (suc n)).all_digits)

AllDigits-one_line : (cs : Text) → AllDigits cs → one_line cs ≡ true
AllDigits-one_line [] h = refl
AllDigits-one_line (c ∷ cs) h = rw (no_newline, AllDigits-one_line cs h.1) refl
  where
    no_newline : (c == 10) ≡ false
    no_newline = ground (arith, h.0)

pub int_text-one_line : (i : ℤ) → one_line (int_text i) ≡ true
unfolding int_text
int_text-one_line (pos n) = AllDigits-one_line (number_text n) (number_text-Decimal n).all_digits
int_text-one_line (negsuc n) =
    AllDigits-one_line (number_text (suc n)) (number_text-Decimal (suc n)).all_digits

pub int_text_unique : (i j : ℤ) → int_text i ≡ int_text j → i ≡ j
int_text_unique i j e =
    let same = sym (int_text-read i) ∙ ap (λ t. signed (skip_spaces t)) e ∙ int_text-read j in cc

-- Digits are read up to what is no digit.
digits_from-append :
    (cs : Text) (c : ℕ) (s : Text)
    → AllDigits cs
    → is_digit c ≡ false
    → (read : Option ℕ) → digits_from read (cs ++ c ∷ s) ≡ digits_from read cs
digits_from-append [] c s h stop read = rw stop refl
digits_from-append (x ∷ cs) c s h stop read = rw h.0 (digits_from-append cs c s h.1 stop _)

pub number-read_before :
    (n c : ℕ) (s : Text)
    → is_digit c ≡ false
    → digits_from none (int_text (pos n) ++ c ∷ s) ≡ some n
unfolding int_text
number-read_before n c s stop =
    digits_from-append (number_text n) c s (number_text-Decimal n).all_digits stop none
    ∙ Decimal-digits (number_text-Decimal n)
