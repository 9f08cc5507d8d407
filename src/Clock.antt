-- ===== src/Clock.antt =====
-- src/utils/clock.hh: the speeds of a process and their names. The sleep
-- of `wait` is its length.
use Prim.Native.Char.{code}
use Prim.Native.String.{String}
use raft_algorep.Base.{ℕ, ◌*◌, Bool, true, false, ◌&&◌, [], ◌∷◌, Text, ◌==◌, if◌then◌else◌}

-- The bytes of an ASCII literal.
abbrev pub codes : String → Text
codes String.[] = []
codes (String.◌∷◌ c s) = code c ∷ codes s

abbrev pub text_eq : Text → Text → Bool
text_eq [] [] = true
text_eq [] (b ∷ t) = false
text_eq (a ∷ s) [] = false
text_eq (a ∷ s) (b ∷ t) = a == b && text_eq s t

pub data SpeedType : Type 0 where
  high medium low : SpeedType

unfoldable pub get_speed_type_name : SpeedType → Text
get_speed_type_name high = codes "high"
get_speed_type_name medium = codes "medium"
get_speed_type_name low = codes "low"

-- The loop tries the names in the order of the enumeration; an unknown name is `high`.
unfoldable pub get_speed_type : Text → SpeedType
get_speed_type name =
    if text_eq (codes "high") name
    then high
    else if text_eq (codes "medium") name
    then medium
    else if text_eq (codes "low") name
    then low
    else high

-- The enumeration's values.
abbrev pub speed_number : SpeedType → ℕ
speed_number high = 0
speed_number medium = 1
speed_number low = 2

-- The microseconds that the process sleeps.
unfoldable pub wait : SpeedType → ℕ
wait speed = let n : ℕ = speed_number speed in if n == 0 then 0 else 1000 * 250 * n
