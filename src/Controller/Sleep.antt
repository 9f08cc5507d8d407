-- ===== src/Controller/Sleep.antt =====
-- How a command line can stop the controller: SLEEP, and the number that it is given.
use raft_algorep.Base.{
  ℤ, pos, negsuc, true, false, List, [], ◌∷◌, Option, none, some, ok, Fault, out_of_range,
  undefined, ◌>>=◌, require, Ends, Ends-bind, Ends-require, ◌≡◌, refl, sym, ap, ◌∙◌, ◌⊎◌, inr,
  arith, Text,
}
use raft_algorep.Config.{GlobalConfig}
use raft_algorep.Rpc.{Packet}
use raft_algorep.Clock.{codes, text_eq}
use raft_algorep.Controller.{
  in_range, of_digits, atoi, thousand, signed, skip_spaces, split_space, sleep_command,
}

-- A SLEEP whose number of milliseconds is no int, or is none when it is multiplied by 1000.
abbrev pub IsLongSleep : Text → Type 0
IsLongSleep line =
    (text_eq (codes "SLEEP") (split_space line).0 ≡ true)
    × ((i : ℤ) × (signed (skip_spaces (split_space line).1) ≡ some i)
        × (in_range (thousand i) ≡ false))

pub data SomeLine (P : Text → Type 0) : List Text → Type 0 where
  here : {line : Text} {lines : List Text} → P line → SomeLine P (line ∷ lines)
  later : {line : Text} {lines : List Text} → SomeLine P lines → SomeLine P (line ∷ lines)

-- What can stop the controller.
abbrev pub Stops : List Text → Fault → Type 0
Stops lines e = (e ≡ out_of_range) ⊎ ((e ≡ undefined) × SomeLine IsLongSleep lines)

abbrev pub LineStops : Text → Fault → Type 0
LineStops line e = (e ≡ out_of_range) ⊎ ((e ≡ undefined) × IsLongSleep line)

thousand-in_range : (i : ℤ) → in_range i ≡ false → in_range (thousand i) ≡ false
thousand-in_range (pos n) h = ground (arith, h)
thousand-in_range (negsuc n) h = ground (arith, h)

module _ (g : GlobalConfig) (P : List Packet → Type 0) (line : Text) (nothing : P []) where
  number-Ends :
      (o : Option ℤ)
      → text_eq (codes "SLEEP") (split_space line).0 ≡ true
      → signed (skip_spaces (split_space line).1) ≡ o
      → Ends
          (LineStops line)
          P
          (of_digits o >>= λ n. require (in_range (thousand n)) undefined (ok []))
  number-Ends none is e = nothing
  number-Ends (some i) is e =
      Ends-bind (LineStops line) (λ n. n ≡ i) P (require (in_range i) undefined (ok i)) _
        (Ends-require (LineStops line) (λ n. n ≡ i) (in_range i) undefined (ok i)
          (λ out. inr (refl, (is, (i, e, thousand-in_range i out)))) (λ _. refl))
        λ n same.
          Ends-require (LineStops line) P (in_range (thousand n)) undefined (ok [])
            (λ out. inr (refl, (is, (i, e, ap (λ j. in_range (thousand j)) (sym same) ∙ out))))
            (λ _. nothing)

  pub sleep_command-Ends :
      text_eq (codes "SLEEP") (split_space line).0 ≡ true
      → Ends (LineStops line) P (sleep_command g (split_space line).1)
  unfolding sleep_command atoi
  sleep_command-Ends is = number-Ends (signed (skip_spaces (split_space line).1)) is refl
