-- ===== src/Tests/Json.antt =====
-- A library that meets the laws of Json.IsLawful: values and the texts that stand for them, each
-- part of an array or an object behind its length.
use raft_algorep.Base.{
  Outcome, ok, fault, unreadable, or_fault, ℕ, zero, suc, ℤ, pos, negsuc, Bool, true, false, List,
  [], ◌∷◌, ◌++◌, map, Option, none, some, All, ◌≡◌, ◌≢◌, refl, ap, ◌≤◌, Text, length, take, drop,
  length-append, if◌then◌else◌, arith,
}
use raft_algorep.Clock.{text_eq}
use raft_algorep.Json.{JsonLib, IsLawful, lookup, names, distinct}

abbrev pred : ℕ → ℕ
pred zero = zero
pred (suc n) = n

pub data Value : Type 0 where
  null_value : Value
  int_value : ℤ → Value
  bool_value : Bool → Value
  text_value array_value object_value : Text → Value

abbrev encode : Value → Text
encode null_value = 0 ∷ []
encode (int_value (pos n)) = 1 ∷ n ∷ []
encode (int_value (negsuc n)) = 2 ∷ n ∷ []
encode (bool_value false) = 3 ∷ []
encode (bool_value true) = 4 ∷ []
encode (text_value t) = 5 ∷ t
encode (array_value t) = 6 ∷ t
encode (object_value t) = 7 ∷ t

abbrev number : (ℕ → ℤ) → Text → Option Value
number sign [] = none
number sign (n ∷ cs) = some (int_value (sign n))

abbrev decode : Text → Option Value
decode [] = none
decode (zero ∷ cs) = some null_value
decode (suc zero ∷ cs) = number pos cs
decode (suc (suc zero) ∷ cs) = number negsuc cs
decode (suc (suc (suc zero)) ∷ cs) = some (bool_value false)
decode (suc (suc (suc (suc zero))) ∷ cs) = some (bool_value true)
decode (suc (suc (suc (suc (suc zero)))) ∷ cs) = some (text_value cs)
decode (suc (suc (suc (suc (suc (suc zero))))) ∷ cs) = some (array_value cs)
decode (suc (suc (suc (suc (suc (suc (suc n)))))) ∷ cs) = some (object_value cs)

decode-encode : (v : Value) → decode (encode v) ≡ some v
decode-encode null_value = refl
decode-encode (int_value (pos n)) = refl
decode-encode (int_value (negsuc n)) = refl
decode-encode (bool_value false) = refl
decode-encode (bool_value true) = refl
decode-encode (text_value t) = refl
decode-encode (array_value t) = refl
decode-encode (object_value t) = refl

abbrev pack : List Text → Text
pack [] = []
pack (t ∷ ts) = length t ∷ t ++ pack ts

-- The fuel is the length of the text.
abbrev items : ℕ → Text → List Text
items zero cs = []
items (suc fuel) [] = []
items (suc fuel) (n ∷ cs) = take n cs ∷ items fuel (drop n cs)

take-append : (s t : Text) → take (length s) (s ++ t) ≡ s
take-append [] t = refl
take-append (c ∷ s) t = ap (◌∷◌ c) (take-append s t)

drop-append : (s t : Text) → drop (length s) (s ++ t) ≡ t
drop-append [] t = refl
drop-append (c ∷ s) t = drop-append s t

items-pack : (fuel : ℕ) (ts : List Text) → length ts ≤ fuel → items fuel (pack ts) ≡ ts
items-pack zero [] h = refl
items-pack zero (t ∷ ts) h = elim h [ ]
items-pack (suc fuel) [] h = refl
items-pack (suc fuel) (t ∷ ts) h =
    rw (take-append t (pack ts), drop-append t (pack ts), items-pack fuel ts (omega arith)) refl

length-pack : (ts : List Text) → length ts ≤ length (pack ts)
length-pack [] = omega arith
length-pack (t ∷ ts) = omega (arith, length-pack ts, length-append t (pack ts))

unpacked : (ts : List Text) → items (length (pack ts)) (pack ts) ≡ ts
unpacked ts = items-pack (length (pack ts)) ts (length-pack ts)

abbrev both : Option Value → Option (List Value) → Option (List Value)
both (some v) (some vs) = some (v ∷ vs)
both (some v) none = none
both none vs = none

abbrev decode_all : List Text → Option (List Value)
decode_all [] = some []
decode_all (t ∷ ts) = both (decode t) (decode_all ts)

decode_all-encode : (vs : List Value) → decode_all (map encode vs) ≡ some vs
decode_all-encode [] = refl
decode_all-encode (v ∷ vs) = λ i. both (decode-encode v i) (decode_all-encode vs i)

abbrev flat : List (Text × Value) → List Text
flat [] = []
flat ((k, v) ∷ fields) = k ∷ encode v ∷ flat fields

abbrev look_up : Text → List Text → Option Value
look_up key [] = none
look_up key (k ∷ []) = none
look_up key (k ∷ t ∷ ts) = if text_eq k key then decode t else look_up key ts

look_up-flat :
    (key : Text) (fields : List (Text × Value)) → look_up key (flat fields) ≡ lookup key fields
look_up-flat key [] = refl
look_up-flat key ((k, v) ∷ fields) = rw (decode-encode v, look_up-flat key fields) refl

abbrev found : Text → Value → Outcome Value
found key j = elim j [
  | object_value t ↦ or_fault (look_up key (items (length t) t)) unreadable
  | _ ↦ fault unreadable
]

abbrev pub library : JsonLib
library = record {
  Json = Value;
  of_int = int_value;
  of_bool = bool_value;
  of_text = text_value;
  of_array = λ js. array_value (pack (map encode js));
  object = λ fields. object_value (pack (flat fields));
  index = λ j key. found key j;
  at_key = λ j key. found key j;
  member = λ j key. found key j;
  get_int = λ j. elim j [ int_value i ↦ ok i | _ ↦ fault unreadable ];
  get_enum = λ j. elim j [ int_value i ↦ ok i | _ ↦ fault unreadable ];
  get_bool = λ j. elim j [ bool_value b ↦ ok b | _ ↦ fault unreadable ];
  get_text = λ j. elim j [ text_value t ↦ ok t | _ ↦ fault unreadable ];
  get_array = λ j. elim j [
    | array_value t ↦ or_fault (decode_all (items (length t) t)) unreadable
    | _ ↦ fault unreadable
  ];
  is_utf8 = λ t. true;
  dump = λ j. ok (map suc (encode j));
  parse = λ t. or_fault (decode (map pred t)) unreadable;
}

pred-suc : (t : Text) → map pred (map suc t) ≡ t
pred-suc [] = refl
pred-suc (c ∷ t) = ap (◌∷◌ c) (pred-suc t)

no_zero : (t : Text) → All (λ c. c ≢ 0) (map suc t)
no_zero [] = tt
no_zero (c ∷ t) = ((λ e. omega arith), no_zero t)

some_code : (v : Value) → map suc (encode v) ≢ []
some_code null_value e = cc
some_code (int_value (pos n)) e = cc
some_code (int_value (negsuc n)) e = cc
some_code (bool_value true) e = cc
some_code (bool_value false) e = cc
some_code (text_value t) e = cc
some_code (array_value t) e = cc
some_code (object_value t) e = cc

found-object :
    (fields : List (Text × Value)) (key : Text) (j : Value)
    → distinct (names fields) ≡ true
    → lookup key fields ≡ some j
    → found key (library.object fields) ≡ ok j
found-object fields key j apart there =
    rw (unpacked (flat fields), look_up-flat key fields, there) refl

pub library-IsLawful : IsLawful library
library-IsLawful = record {
  get_int-of_int = λ i h. refl;
  get_enum-of_int = λ i h. refl;
  get_bool-of_bool = λ b. refl;
  get_text-of_text = λ t. refl;
  get_array-of_array = λ js. rw (unpacked (map encode js), decode_all-encode js) refl;
  index-object = found-object;
  at_key-object = found-object;
  member-object = found-object;
  IsDumpable = λ j. Unit {0};
  of_int-IsDumpable = λ i. tt;
  of_bool-IsDumpable = λ b. tt;
  of_text-IsDumpable = λ t h. tt;
  of_array-IsDumpable = λ js h. tt;
  object-IsDumpable = λ fields apart h. tt;
  parse-dump = λ j h. (
    map suc (encode j),
    refl,
    some_code j,
    no_zero (encode j),
    rw (pred-suc (encode j), decode-encode j) refl,
  );
  is_utf8-ascii = λ t h. refl;
}
