-- ===== src/Routing/Seek.antt =====
-- seek_list.c: the destinations for which a route discovery is under way. A `seek_list_t *` is the
-- destination of its entry.
use aodv.Base.{ℕ, Bool, true, false, Option, none, some, List, [], ◌∷◌, ◌==◌, if◌then◌else◌}
use aodv.Timer.{seek_timer, route_discovery_timeout}
use aodv.Msg.{RreqFlags, no_rreq_flags}
use aodv.Node.{State, ⊤, M, pure, gets, modify, ◌>>◌, init_timer, remove_timer, SeekEntry}

unfoldable pub find_seek : ℕ → List SeekEntry → Option SeekEntry
find_seek d [] = none
find_seek d (e ∷ l) = if e.dest_addr == d then some e else find_seek d l

unfoldable pub remove_seek : ℕ → List SeekEntry → List SeekEntry
remove_seek d [] = []
remove_seek d (e ∷ l) = if e.dest_addr == d then l else e ∷ remove_seek d l

unfoldable pub write_seek : ℕ → (SeekEntry → SeekEntry) → List SeekEntry → List SeekEntry
write_seek d f [] = []
write_seek d f (e ∷ l) = if e.dest_addr == d then f e ∷ l else e ∷ write_seek d f l

abbrev pub null_seek : SeekEntry
null_seek = record { dest_addr = 0; dest_seqno = 0; flags = no_rreq_flags; rreq_cnt = 0; ttl = 0 }

abbrev or_null : Option SeekEntry → SeekEntry
or_null none = null_seek
or_null (some e) = e

abbrev found : Option SeekEntry → Option ℕ
found none = none
found (some e) = some e.dest_addr

unfoldable pub seek_at : ℕ → State → SeekEntry
unfolding find_seek
seek_at d s = or_null (find_seek d s.sl)

abbrev pub deref_seek : ℕ → M SeekEntry
deref_seek d = gets (seek_at d)

abbrev pub on_seek : ℕ → (SeekEntry → SeekEntry) → M ⊤
on_seek d f = modify λ s. record s { sl = write_seek d f s.sl }

unfoldable pub seek_list_check : ℕ → M (Option ℕ)
unfolding find_seek
seek_list_check dest_addr = gets λ s. found (find_seek dest_addr s.sl)

unfoldable pub seek_list_insert : ℕ → ℕ → ℕ → RreqFlags → M ℕ
seek_list_insert dest_addr dest_seqno ttl flags = do
  init_timer (seek_timer dest_addr) route_discovery_timeout
  modify λ s. record s {
    sl =
        record {
          dest_addr = dest_addr;
          dest_seqno = dest_seqno;
          flags = flags;
          rreq_cnt = 1;
          ttl = ttl;
        }
        ∷ s.sl;
  }
  pure dest_addr

-- The result is `true` for 0, and `false` for the -1 of a NULL pointer.
unfoldable pub seek_list_remove : Option ℕ → M Bool
unfolding remove_seek
seek_list_remove none = pure false
seek_list_remove (some entry) = do
  modify λ s. record s { sl = remove_seek entry s.sl }
  remove_timer (seek_timer entry)
  pure true
