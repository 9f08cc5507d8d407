-- ===== src/Rpc/Names.antt =====
-- src/rpc/controllerRequest.hh: the names of the controller's requests, as they are written in
-- JSON.
use raft_algorep.Base.{List, [], ◌∷◌, ◌≡◌, refl, if◌then◌else◌, Text}
use raft_algorep.Rpc.{
  ControllerRequestType, status, crash, speed, start, recovery, print_log, entry,
}
use raft_algorep.Clock.{
  SpeedType, high, medium, low, codes, text_eq, get_speed_type, get_speed_type_name,
}

unfoldable pub get_controller_request_type_name : ControllerRequestType → Text
get_controller_request_type_name status = codes "STATUS"
get_controller_request_type_name crash = codes "CRASH"
get_controller_request_type_name speed = codes "SPEED"
get_controller_request_type_name start = codes "START"
get_controller_request_type_name recovery = codes "RECOVERY"
get_controller_request_type_name print_log = codes "PRINT_LOG"
get_controller_request_type_name entry = codes "ENTRY"

-- The loop over the names, in the order of the enumeration; an unknown name is `status`.
unfoldable find_type : List ControllerRequestType → Text → ControllerRequestType
unfolding get_controller_request_type_name
find_type [] name = status
find_type (t ∷ ts) name =
    let rest = find_type ts name in
    if text_eq (get_controller_request_type_name t) name then t else rest

unfoldable pub get_controller_request_type : Text → ControllerRequestType
unfolding find_type
get_controller_request_type name =
    find_type (status ∷ crash ∷ speed ∷ start ∷ recovery ∷ print_log ∷ entry ∷ []) name

pub request_type_of_name :
    (t : ControllerRequestType)
    → get_controller_request_type (get_controller_request_type_name t) ≡ t
unfolding get_controller_request_type get_controller_request_type_name
request_type_of_name status = refl
request_type_of_name crash = refl
request_type_of_name speed = refl
request_type_of_name start = refl
request_type_of_name recovery = refl
request_type_of_name print_log = refl
request_type_of_name entry = refl

pub speed_type_of_name : (s : SpeedType) → get_speed_type (get_speed_type_name s) ≡ s
unfolding get_speed_type get_speed_type_name
speed_type_of_name high = refl
speed_type_of_name medium = refl
speed_type_of_name low = refl

-- Each type of a controller's request, and each speed, is found again under its name.
pub types_of_names :
    (t : ControllerRequestType) (s : SpeedType)
    → (get_controller_request_type (get_controller_request_type_name t) ≡ t)
      × (get_speed_type (get_speed_type_name s) ≡ s)
types_of_names t s = (request_type_of_name t, speed_type_of_name s)
