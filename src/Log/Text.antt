-- ===== src/Log/Text.antt =====
-- debug.c: flags, states, types and handlers as text. A text is the list of its ASCII codes, less the
-- zero at its end. What sprintf prints for a %d is a parameter.
use Prim.Native.Char.{code}
use Prim.Native.String.{String}
use aodv.Base.{ℕ, ◌<◌, ◌≡◌, Bool, List, [], ◌∷◌, ◌++◌, length, ◌==◌, if◌then◌else◌, arith}
use aodv.Timer.{Handler}
use aodv.Msg.{RreqFlags}
use aodv.Node.{RtFlags, RtState, valid, invalid}

abbrev pub Text : Type 0
Text = List ℕ

abbrev pub codes : String → Text
codes String.[] = []
codes (String.◌∷◌ c s) = code c ∷ codes s

-- `if(flag) buf[len++] = c`
unfoldable pub put_flag : Bool → ℕ → Text → Text
put_flag b c buf = if b then buf ++ c ∷ [] else buf

unfoldable pub rreq_flags_to_str : RreqFlags → Text
unfolding put_flag
rreq_flags_to_str f =
    put_flag f.d b'D' (put_flag f.g b'G' (put_flag f.r b'R' (put_flag f.j b'J' [])))

-- Of the two flags of a RREP.
unfoldable pub rrep_flags_to_str : Bool → Bool → Text
unfolding put_flag
rrep_flags_to_str r a = put_flag a b'A' (put_flag r b'R' [])

unfoldable pub rt_flags_to_str : RtFlags → Text
unfolding put_flag
rt_flags_to_str f = put_flag f.inet_dest b'I' (put_flag f.repair b'R' (put_flag f.unidir b'U' []))

-- A state other than VALID and INVALID, which would be "?", does not occur.
unfoldable pub state_to_str : RtState → Text
state_to_str valid = codes "VAL"
state_to_str invalid = codes "INV"

-- AODV_RREQ, AODV_RREP and AODV_RERR are 1, 2 and 3.
unfoldable pub packet_type : (ℕ → Text) → ℕ → Text
packet_type decimal type =
    if type == 1
    then codes "AODV_RREQ"
    else if type == 2
    then codes "AODV_RREP"
    else if type == 3
    then codes "AODV_RERR"
    else codes "Unknown packet type " ++ decimal type

-- func_struct_t
pub record FuncStruct : Type 0 where
  pub func_name : String
  pub action : Handler

abbrev func : String → Handler → FuncStruct
func name action = record { func_name = name; action = action }

abbrev pub timeout_func : List FuncStruct
timeout_func =
    func "rreq_record_timeout" Handler.rreq_record_timeout
    ∷ func "rreq_blacklist_timeout" Handler.rreq_blacklist_timeout
    ∷ func "route_discovery_timeout" Handler.route_discovery_timeout
    ∷ func "local_repair_timeout" Handler.local_repair_timeout
    ∷ func "route_expire_timeout" Handler.route_expire_timeout
    ∷ func "route_delete_timeout" Handler.route_delete_timeout
    ∷ func "hello_timeout" Handler.hello_timeout
    ∷ func "rrep_ack_timeout" Handler.rrep_ack_timeout
    ∷ func "wait_on_reboot_timeout" Handler.wait_on_reboot_timeout
    ∷ func "print_rt_table" Handler.print_rt_table
    ∷ []

-- Handlers are compared by their addresses.
abbrev address : Handler → ℕ
address Handler.null_handler = 0
address Handler.rreq_record_timeout = 1
address Handler.rreq_blacklist_timeout = 2
address Handler.route_discovery_timeout = 3
address Handler.local_repair_timeout = 4
address Handler.route_expire_timeout = 5
address Handler.route_delete_timeout = 6
address Handler.hello_timeout = 7
address Handler.rrep_ack_timeout = 8
address Handler.hello_send = 9
address Handler.wait_on_reboot_timeout = 10
address Handler.print_rt_table = 11

-- The loop of ptr_to_func_name.
unfoldable pub func_name_in : Handler → List FuncStruct → Text
func_name_in f [] = codes "Unkown function"
func_name_in f (e ∷ l) =
    if address f == address e.action then codes e.func_name else func_name_in f l

unfoldable pub ptr_to_func_name : Handler → Text
unfolding func_name_in
ptr_to_func_name action = func_name_in action timeout_func

-- The text of a RREQ's flags and its zero fit into the five bytes of the buffer, and the text tells the
-- four flags.
pub rreq_flags_to_str-fits : (f : RreqFlags) → length (rreq_flags_to_str f) < 5
unfolding rreq_flags_to_str put_flag
rreq_flags_to_str-fits f = ground arith

pub rreq_flags_to_str-tells :
    (f g : RreqFlags)
    → rreq_flags_to_str f ≡ rreq_flags_to_str g
    → (f.j ≡ g.j) × (f.r ≡ g.r) × (f.g ≡ g.g) × (f.d ≡ g.d)
unfolding rreq_flags_to_str put_flag
rreq_flags_to_str-tells f g e = ground (arith, e)

-- Likewise the three bytes for a RREP's flags.
pub rrep_flags_to_str-fits : (r a : Bool) → length (rrep_flags_to_str r a) < 3
unfolding rrep_flags_to_str put_flag
rrep_flags_to_str-fits r a = ground arith

pub rt_flags_to_str-fits : (f : RtFlags) → length (rt_flags_to_str f) < 5
unfolding rt_flags_to_str put_flag
rt_flags_to_str-fits f = ground arith

-- The name of every handler fits into the 32 bytes of the buffer.
pub ptr_to_func_name-fits : (f : Handler) → length (ptr_to_func_name f) < 32
unfolding ptr_to_func_name func_name_in
ptr_to_func_name-fits Handler.null_handler = omega arith
ptr_to_func_name-fits Handler.rreq_record_timeout = omega arith
ptr_to_func_name-fits Handler.rreq_blacklist_timeout = omega arith
ptr_to_func_name-fits Handler.route_discovery_timeout = omega arith
ptr_to_func_name-fits Handler.local_repair_timeout = omega arith
ptr_to_func_name-fits Handler.route_expire_timeout = omega arith
ptr_to_func_name-fits Handler.route_delete_timeout = omega arith
ptr_to_func_name-fits Handler.hello_timeout = omega arith
ptr_to_func_name-fits Handler.rrep_ack_timeout = omega arith
ptr_to_func_name-fits Handler.hello_send = omega arith
ptr_to_func_name-fits Handler.wait_on_reboot_timeout = omega arith
ptr_to_func_name-fits Handler.print_rt_table = omega arith
