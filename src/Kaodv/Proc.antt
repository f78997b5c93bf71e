-- ===== src/Kaodv/Proc.antt =====
-- The files of the module below /proc/net (kaodv/src/kaodv_expl.c, kaodv_queue.c), and the names of the
-- message types (kaodv_netlink.h). The walk over a list, seq_list_start and seq_list_next, and the names of
-- devices are the kernel's: parameters.
use Prim.Native.String.{String}
use aodv.Base.{
  ℕ, zero, suc, ◌+◌, ◌*◌, ◌/◌, ◌%◌, ◌-◌, ◌<◌, ◌≡◌, refl, Option, none, some, List, [], ◌∷◌, ◌++◌,
  length, leb, ◌==◌, if◌then◌else◌, arith,
}
use aodv.Log.Text.{Text, put_flag}
use aodv.Kaodv.Defs.{ExplFlags, ExplEntry, Kernel}

-- The lines of the routes' file: the names of the columns, and a route with its time left in milliseconds.
pub data ExplLine : Type 0 where
  expl_columns : ExplLine
  expl_line : (daddr nhop : ℕ) (flags dev : Text) (expires : ℕ) → ExplLine

-- The text of the flags, in a buffer of four bytes.
unfoldable pub expl_flags : ExplFlags → Text
unfolding put_flag
expl_flags f = put_flag f.repair b'R' (put_flag f.gw_encap b'E' [])

-- `e->expires - jiffies` on an unsigned long of `ulong_mod` values.
module _ (ulong_mod : ℕ) (dev_get_by_index : ℕ → Option Text) where
  abbrev show_on : ExplEntry → Kernel → Option Text → Option ExplLine
  show_on e k none = none
  show_on e k (some dev) = some (
      expl_line e.daddr e.nhop (expl_flags e.flags) dev
        ((e.expires + ulong_mod - k.jiffies % ulong_mod) % ulong_mod * 1000 % ulong_mod / k.env.hz))

  -- An entry whose device is gone gives no line.
  unfoldable pub expl_seq_show : ExplEntry → Kernel → Option ExplLine
  unfolding expl_flags
  expl_seq_show e k = show_on e k (dev_get_by_index e.ifindex)

-- What is printed, and the element from which the file is read on.
unfoldable pub expl_seq_start :
    (List ExplEntry → ℕ → Option ExplEntry) → ℕ → Kernel → List ExplLine × Option ExplEntry
expl_seq_start seq_list_start p k =
    (if p == 0 then expl_columns ∷ [] else [], seq_list_start k.expl p)

unfoldable pub expl_seq_next :
    (ExplEntry → List ExplEntry → ℕ → Option ExplEntry × ℕ)
    → ExplEntry
    → ℕ
    → Kernel
    → Option ExplEntry × ℕ
expl_seq_next seq_list_next v p k = seq_list_next v k.expl p

-- struct queue_show, of which `queue_show_buf` holds one.
pub record QueueShow : Type 0 where
  pub total : ℕ
  pub maxlen : ℕ

unfoldable pub queue_show_buf_update : Kernel → QueueShow
queue_show_buf_update k = record { total = k.queue_total; maxlen = k.queue_maxlen }

unfoldable pub queue_seq_start : ℕ → Kernel → QueueShow × Option QueueShow
unfolding queue_show_buf_update
queue_seq_start p k =
    let buf : QueueShow = queue_show_buf_update k in (buf, if leb 1 p then none else some buf)

-- The position goes up before it is tested.
unfoldable pub queue_seq_next : ℕ → QueueShow → ℕ × Option QueueShow
queue_seq_next p buf = (p + 1, if leb 1 (p + 1) then none else some buf)

-- A whole reading of the queue's file, with the kernel's calls of start, show and next: the elements
-- that are shown.
unfoldable pub read_from : ℕ → ℕ → Option QueueShow → List QueueShow
unfolding queue_seq_next
read_from zero p o = []
read_from (suc fuel) p none = []
read_from (suc fuel) p (some v) = let (p', o) = queue_seq_next p v in v ∷ read_from fuel p' o

-- An entry of typenames: those beyond the ten that are initialised are zero.
abbrev typenames_from : ℕ → List String → List (ℕ × Option String)
typenames_from n [] = []
typenames_from n (x ∷ l) = (n, some x) ∷ typenames_from (n + 1) l

abbrev zeros : ℕ → List (ℕ × Option String)
zeros zero = []
zeros (suc n) = (0, none) ∷ zeros n

-- KAODVM_ADDROUTE is 101, and KAODVM_MAX is 111.
abbrev pub typenames : List (ℕ × Option String)
typenames =
    typenames_from 101 (
      "Add route" ∷ "Delete route" ∷ "Timeout" ∷ "Route Request" ∷ "Route repair" ∷ "No route found"
      ∷ "Route update" ∷ "Send route error" ∷ "Configuration" ∷ "Debug" ∷ [])
    ++ zeros 101

-- The loop of kaodv_msg_type_to_str; `none` is the NULL of an entry that is zero.
unfoldable pub type_name_in : ℕ → List (ℕ × Option String) → Option String
type_name_in type [] = some "Unknown message type"
type_name_in type ((t, name) ∷ l) = if type == t then name else type_name_in type l

unfoldable pub kaodv_msg_type_to_str : ℕ → Option String
unfolding type_name_in
kaodv_msg_type_to_str type = type_name_in type typenames

pub expl_flags-fits : (f : ExplFlags) → length (expl_flags f) < 4
unfolding expl_flags put_flag
expl_flags-fits f = ground arith

-- The file of the queue shows the two counts once, as they are when the reading starts, however long the
-- kernel goes on reading.
pub queue_read_once :
    (fuel : ℕ) (k : Kernel)
    → read_from (suc fuel) 0 (queue_seq_start 0 k).1
      ≡ record { total = k.queue_total; maxlen = k.queue_maxlen } ∷ []
unfolding read_from queue_seq_start queue_seq_next queue_show_buf_update
queue_read_once zero k = refl
queue_read_once (suc fuel) k = refl
