-- ===== src/Update/Faults.antt =====
-- Calls that end in no exhausted loop and no second choice of the next state, and rules for them.
use raft_algorep.Base.{
  Bool, true, false, Option, none, some, Outcome, ok, fault, Fault, assertion, state_changed_twice,
  inconsistent_index, commit_beyond_log, out_of_range, undefined, waiting, unreadable, unhandled,
  no_rank, out_of_fuel, ◌>>=◌, require, or_fault, Ends, Ends-bind, IfReturns, if◌then◌else◌, ◌≡◌,
  refl,
}

abbrev pub Allowed : Fault → Type 0
Allowed (assertion state_changed_twice) = ⊥
Allowed (assertion inconsistent_index) = Unit
Allowed (assertion commit_beyond_log) = Unit
Allowed out_of_range = Unit
Allowed undefined = Unit
Allowed waiting = Unit
Allowed unreadable = ⊥
Allowed (unhandled text) = ⊥
Allowed no_rank = ⊥
Allowed out_of_fuel = ⊥

-- A call that returns or ends in an allowed fault.
pub record Clean {ℓ} {A : Type ℓ} (m : Outcome A) : Type 0 where
  pub ends : Ends Allowed (λ a. Unit {0}) m

module _ {ℓ} {A : Type ℓ} where
  pub Clean-ok : (a : A) → Clean (ok a)
  Clean-ok a = record { ends = tt }

  pub Clean-fault : (e : Fault) → Allowed e → Clean {A = A} (fault e)
  Clean-fault e h = record { ends = h }

  pub Clean-if : (b : Bool) (m n : Outcome A) → Clean m → Clean n → Clean (if b then m else n)
  Clean-if true m n h k = h
  Clean-if false m n h k = k

  pub Clean-require :
      (b : Bool) (e : Fault) (m : Outcome A) → Allowed e → Clean m → Clean (require b e m)
  Clean-require true e m a h = h
  Clean-require false e m a h = Clean-fault e a

  pub Clean-or_fault : (o : Option A) (e : Fault) → Allowed e → Clean (or_fault o e)
  Clean-or_fault none e a = Clean-fault e a
  Clean-or_fault (some x) e a = Clean-ok x

pub Clean-bind {ℓ κ} :
    {A : Type ℓ} {B : Type κ} (m : Outcome A) (f : A → Outcome B)
    → Clean m
    → ((a : A) → Clean (f a))
    → Clean (m >>= f)
Clean-bind m f h k = record {
  ends = Ends-bind Allowed (λ a. Unit) (λ b. Unit) m f h.ends (λ a _. (k a).ends);
}

-- The same, with what is known of the first part's value.
pub Clean-bind_eq {ℓ κ} :
    {A : Type ℓ} {B : Type κ} (m : Outcome A) (f : A → Outcome B)
    → Clean m
    → ((a : A) → m ≡ ok a → Clean (f a))
    → Clean (m >>= f)
Clean-bind_eq (ok a) f h k = k a refl
Clean-bind_eq (fault e) f h k = Clean-fault e h.ends

pub ruleset clean = (Clean-ok, Clean-fault, Clean-if, Clean-require, Clean-or_fault, Clean-bind)

-- What is clean and keeps `P` if it returns, ends in `P` or in an allowed fault.
pub Clean-Ends {ℓ} :
    {A : Type ℓ} (P : A → Type 0) (m : Outcome A) → Clean m → IfReturns P m → Ends Allowed P m
Clean-Ends P (ok a) h k = k
Clean-Ends P (fault e) h k = h.ends
