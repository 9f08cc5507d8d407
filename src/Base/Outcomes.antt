-- ===== src/Base/Outcomes.antt =====
-- How a call ends: with a value, or in one of the ways in which the program stops or hangs.
use mathlib.Core.Path.{◌≡◌, refl}
use mathlib.Core.Bool.{Bool, true, false}
use mathlib.Core.Option.{Option, none, some}
use raft_algorep.Base.Tests.{if◌then◌else◌}
use raft_algorep.Base.Lists.{Text}

-- The assertions of the program.
pub data Assertion : Type 0 where
  -- Cycle::changeNextState
  state_changed_twice : Assertion
  -- FollowerCycle::append_entries
  inconsistent_index : Assertion
  -- FollowerCycle::handle_append_entries and LeaderCycle::update_commitIndex
  commit_beyond_log : Assertion

pub data Fault : Type 0 where
  assertion : Assertion → Fault
  -- std::out_of_range and std::length_error
  out_of_range : Fault
  -- undefined behaviour: `operator[]` out of bounds, signed overflow
  undefined : Fault
  -- an exception of nlohmann::json
  unreadable : Fault
  -- the std::runtime_error of MPI::Recv_Rpc, with its text
  unhandled : Text → Fault
  -- the model's ranks are natural numbers, and a rank read from a text is negative
  no_rank : Fault
  -- the process waits for a message that the given schedule does not bring
  waiting : Fault
  -- the fuel of a loop of the model is used up
  out_of_fuel : Fault

pub data Outcome {ℓ} (A : Type ℓ) : Type ℓ where
  ok : A → Outcome A
  fault : Fault → Outcome A

infixl 5 ◌>>=◌
abbrev pub ◌>>=◌ {ℓ κ} : {A : Type ℓ} {B : Type κ} → Outcome A → (A → Outcome B) → Outcome B
ok value >>= rest = rest value
fault stop >>= rest = fault stop

abbrev pub require {ℓ} : {A : Type ℓ} → Bool → Fault → Outcome A → Outcome A
require true e k = k
require false e k = fault e

abbrev pub or_fault {ℓ} : {A : Type ℓ} → Option A → Fault → Outcome A
or_fault (some a) e = ok a
or_fault none e = fault e

-- The value of a call that returns; `d` where it does not.
abbrev pub result_or {ℓ} : {A : Type ℓ} → A → Outcome A → A
result_or d (ok a) = a
result_or d (fault e) = d

-- How a call may end: with a value of which `P` holds, or with a fault of which `F` holds.
abbrev pub Ends {ℓ} : {A : Type ℓ} → (Fault → Type 0) → (A → Type 0) → Outcome A → Type 0
Ends F P (ok a) = P a
Ends F P (fault e) = F e

-- Total correctness: the call returns, and `P` holds of what it returns.
abbrev pub Returns {ℓ} : {A : Type ℓ} → (A → Type 0) → Outcome A → Type 0
Returns P r = Ends (λ e. ⊥) P r

-- Partial correctness: `P` holds of what the call returns, if it returns.
abbrev pub IfReturns {ℓ} : {A : Type ℓ} → (A → Type 0) → Outcome A → Type 0
IfReturns P r = Ends (λ e. Unit {0}) P r

pub Ends-bind {ℓ κ} :
    {A : Type ℓ} {B : Type κ} (F : Fault → Type 0) (P : A → Type 0) (Q : B → Type 0) (m : Outcome A)
    (f : A → Outcome B)
    → Ends F P m
    → ((a : A) → P a → Ends F Q (f a))
    → Ends F Q (m >>= f)
Ends-bind F P Q (ok a) f h k = k a h
Ends-bind F P Q (fault e) f h k = h

pub Ends-mono {ℓ} :
    {A : Type ℓ} (F : Fault → Type 0) (P Q : A → Type 0) (m : Outcome A)
    → Ends F P m
    → ((a : A) → P a → Q a)
    → Ends F Q m
Ends-mono F P Q (ok a) h k = k a h
Ends-mono F P Q (fault e) h k = h

pub Ends-faults {ℓ} :
    {A : Type ℓ} (F G : Fault → Type 0) (P : A → Type 0) (m : Outcome A)
    → Ends F P m
    → ((e : Fault) → F e → G e)
    → Ends G P m
Ends-faults F G P (ok a) h k = h
Ends-faults F G P (fault e) h k = k e h

pub Ends-require {ℓ} :
    {A : Type ℓ} (F : Fault → Type 0) (P : A → Type 0) (b : Bool) (e : Fault) (m : Outcome A)
    → (b ≡ false → F e)
    → (b ≡ true → Ends F P m)
    → Ends F P (require b e m)
Ends-require F P true e m no_case yes_case = yes_case refl
Ends-require F P false e m no_case yes_case = no_case refl

pub Ends-or_fault {ℓ} :
    {A : Type ℓ} (F : Fault → Type 0) (P : A → Type 0) (o : Option A) (e : Fault)
    → (o ≡ none → F e)
    → ((a : A) → o ≡ some a → P a)
    → Ends F P (or_fault o e)
Ends-or_fault F P none e h k = h refl
Ends-or_fault F P (some a) e h k = k a refl

-- An equation of outcomes, read off: a call that returned `a` has ended well.
pub Ends-ok {ℓ} :
    {A : Type ℓ} (F : Fault → Type 0) (P : A → Type 0) (m : Outcome A) {a : A}
    → Ends F P m
    → m ≡ ok a
    → P a
Ends-ok F P (ok b) {a} h e = let e' : b ≡ a = cc in rw (← e') h
Ends-ok F P (fault f) h e = cc

pub Ends-fault {ℓ} :
    {A : Type ℓ} (F : Fault → Type 0) (P : A → Type 0) (m : Outcome A) {e : Fault}
    → Ends F P m
    → m ≡ fault e
    → F e
Ends-fault F P (ok b) h e = cc
Ends-fault F P (fault f) {e = x} h e = let e' : f ≡ x = cc in rw (← e') h

-- Of a part that faults nothing is to be shown here.
pub IfReturns-bind {ℓ κ} :
    {A : Type ℓ} {B : Type κ} (Q : B → Type 0) (m : Outcome A) (f : A → Outcome B)
    → ((a : A) → m ≡ ok a → IfReturns Q (f a))
    → IfReturns Q (m >>= f)
IfReturns-bind Q (ok a) f k = k a refl
IfReturns-bind Q (fault e) f k = tt

pub IfReturns-require {ℓ} :
    {A : Type ℓ} (P : A → Type 0) (b : Bool) (e : Fault) (m : Outcome A)
    → (b ≡ true → IfReturns P m)
    → IfReturns P (require b e m)
IfReturns-require P true e m k = k refl
IfReturns-require P false e m k = tt

pub IfReturns-if {ℓ} :
    {A : Type ℓ} (P : A → Type 0) (b : Bool) (m n : Outcome A)
    → (b ≡ true → IfReturns P m)
    → (b ≡ false → IfReturns P n)
    → IfReturns P (if b then m else n)
IfReturns-if P true m n k l = k refl
IfReturns-if P false m n k l = l refl

pub Ends-if {ℓ} :
    {A : Type ℓ} (F : Fault → Type 0) (P : A → Type 0) (b : Bool) (m n : Outcome A)
    → (b ≡ true → Ends F P m)
    → (b ≡ false → Ends F P n)
    → Ends F P (if b then m else n)
Ends-if F P true m n k l = k refl
Ends-if F P false m n k l = l refl

pub IfReturns-mono {ℓ} :
    {A : Type ℓ} (P Q : A → Type 0) (m : Outcome A)
    → IfReturns P m
    → ((a : A) → P a → Q a)
    → IfReturns Q m
IfReturns-mono P Q (ok a) h k = k a h
IfReturns-mono P Q (fault e) h k = tt

pub Ends-IfReturns {ℓ} :
    {A : Type ℓ} (F : Fault → Type 0) (P Q : A → Type 0) (m : Outcome A)
    → Ends F P m
    → ((a : A) → P a → Q a)
    → IfReturns Q m
Ends-IfReturns F P Q (ok a) h k = k a h
Ends-IfReturns F P Q (fault e) h k = tt
