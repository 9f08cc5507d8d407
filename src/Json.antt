-- ===== src/Json.antt =====
-- nlohmann::json, which src/wrappers/nlhomann_include.hh brings in: what the program uses of it,
-- and what the library documents. The library is a parameter of the messages' text form.
use raft_algorep.Base.{
  ℤ, int_min, int_max, ◌≤ℤ◌, Bool, true, not, ◌&&◌, List, [], ◌∷◌, Option, none, some, Outcome, ok,
  All, ◌≡◌, ◌≢◌, leb, if◌then◌else◌, Text,
}
use raft_algorep.Clock.{text_eq}

-- An exception of the library is the fault `unreadable`. `index` is `operator[]` of a constant
-- value, and `member` is that of a variable, which may insert the key.
pub record JsonLib : Type 1 where
  pub Json : Type 0
  pub of_int : ℤ → Json
  pub of_bool : Bool → Json
  pub of_text : Text → Json
  pub of_array : List Json → Json
  pub object : List (Text × Json) → Json
  pub index : Json → Text → Outcome Json
  pub at_key : Json → Text → Outcome Json
  pub member : Json → Text → Outcome Json
  pub get_int : Json → Outcome ℤ
  pub get_enum : Json → Outcome ℤ
  pub get_bool : Json → Outcome Bool
  pub get_text : Json → Outcome Text
  pub get_array : Json → Outcome (List Json)
  pub is_utf8 : Text → Bool
  pub dump : Json → Outcome Text
  pub parse : Text → Outcome Json

abbrev pub lookup {ℓ} : {A : Type ℓ} → Text → List (Text × A) → Option A
lookup key [] = none
lookup key ((k, a) ∷ fields) = if text_eq k key then some a else lookup key fields

abbrev pub names {ℓ} : {A : Type ℓ} → List (Text × A) → List Text
names [] = []
names ((k, a) ∷ fields) = k ∷ names fields

abbrev fresh : Text → List Text → Bool
fresh key [] = true
fresh key (k ∷ ks) = not (text_eq k key) && fresh key ks

abbrev pub distinct : List Text → Bool
distinct [] = true
distinct (k ∷ ks) = fresh k ks && distinct ks

abbrev pub is_ascii : Text → Bool
is_ascii [] = true
is_ascii (c ∷ cs) = leb c 127 && is_ascii cs

-- A value of the type `int`.
abbrev pub IsInt : ℤ → Type 0
IsInt i = (int_min ≤ℤ i) × (i ≤ℤ int_max)

-- What the library documents of these operations. `IsDumpable` holds of the values that `dump` does
-- not refuse. The text that `dump` writes is not empty, escapes the byte 0, and is parsed back.
pub record IsLawful (L : JsonLib) : Type 1 where
  pub get_int-of_int : (i : ℤ) → IsInt i → L.get_int (L.of_int i) ≡ ok i
  pub get_enum-of_int : (i : ℤ) → IsInt i → L.get_enum (L.of_int i) ≡ ok i
  pub get_bool-of_bool : (b : Bool) → L.get_bool (L.of_bool b) ≡ ok b
  pub get_text-of_text : (t : Text) → L.get_text (L.of_text t) ≡ ok t
  pub get_array-of_array : (js : List L.Json) → L.get_array (L.of_array js) ≡ ok js
  pub index-object :
      (fields : List (Text × L.Json)) (key : Text) (j : L.Json)
      → distinct (names fields) ≡ true
      → lookup key fields ≡ some j
      → L.index (L.object fields) key ≡ ok j
  pub at_key-object :
      (fields : List (Text × L.Json)) (key : Text) (j : L.Json)
      → distinct (names fields) ≡ true
      → lookup key fields ≡ some j
      → L.at_key (L.object fields) key ≡ ok j
  pub member-object :
      (fields : List (Text × L.Json)) (key : Text) (j : L.Json)
      → distinct (names fields) ≡ true
      → lookup key fields ≡ some j
      → L.member (L.object fields) key ≡ ok j
  pub IsDumpable : L.Json → Type 0
  pub of_int-IsDumpable : (i : ℤ) → IsDumpable (L.of_int i)
  pub of_bool-IsDumpable : (b : Bool) → IsDumpable (L.of_bool b)
  pub of_text-IsDumpable : (t : Text) → L.is_utf8 t ≡ true → IsDumpable (L.of_text t)
  pub of_array-IsDumpable : (js : List L.Json) → All IsDumpable js → IsDumpable (L.of_array js)
  pub object-IsDumpable :
      (fields : List (Text × L.Json))
      → distinct (names fields) ≡ true
      → All (λ f. (L.is_utf8 f.0 ≡ true) × IsDumpable f.1) fields
      → IsDumpable (L.object fields)
  pub parse-dump :
      (j : L.Json)
      → IsDumpable j
      → (t : Text) × (L.dump j ≡ ok t) × (t ≢ []) × All (λ c. c ≢ 0) t × (L.parse t ≡ ok j)
  -- A text of ASCII characters is UTF-8.
  pub is_utf8-ascii : (t : Text) → is_ascii t ≡ true → L.is_utf8 t ≡ true
