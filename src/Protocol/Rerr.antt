-- ===== src/Protocol/Rerr.antt =====
-- aodv_rerr.c: rerr_process.
use aodv.Base.{
  ℕ, Bool, not, ◌&&◌, Option, none, some, List, [], ◌∷◌, ltb, s32_lt, ◌==◌, if◌then◌else◌,
}
use aodv.Msg.{Rerr, Udest, rerr_calc_size, aodv_broadcast}
use aodv.Node.{⊤, M, pure, skip, when, ◌>>=◌, ◌>>◌, is_valid, RtEntry}
use aodv.Routing.Table.{deref, write_rt, rt_table_check}
use aodv.Routing.Route.{rt_table_invalidate, precursor_list_destroy}
use aodv.Routing.Neighbor.{Pending, no_pending, report_udest, send_rerr}

-- Whether the entry loses its route: it goes through the sender, and is not newer.
abbrev pub is_lost : ℕ → Udest → RtEntry → Bool
is_lost ip_src ud e =
    is_valid e.state && e.next_hop == ip_src && not (s32_lt ud.dest_seqno e.dest_seqno)

-- The body of the loop for an entry that loses its route.
unfoldable pub lose_route : Bool → Udest → ℕ → Pending → M Pending
unfolding rt_table_invalidate report_udest precursor_list_destroy
lose_route n ud rt v = do
  when (not n) (do rt_table_invalidate rt; skip)
  write_rt rt λ x. record x { dest_seqno = ud.dest_seqno }
  e ← deref rt
  v' ← (if not (e.nprecursor == 0) && not e.flags.repair then report_udest n rt v else pure v)
  when (not (is_valid e.state)) (precursor_list_destroy rt)
  pure v'

abbrev pub process_found : Bool → ℕ → Udest → Option ℕ → Pending → M Pending
process_found n ip_src ud none v = pure v
process_found n ip_src ud (some rt) v = do
  e ← deref rt
  if is_lost ip_src ud e then lose_route n ud rt v else pure v

unfoldable pub process_udest : Bool → ℕ → Udest → Pending → M Pending
unfolding rt_table_check lose_route
process_udest n ip_src ud v = do rt ← rt_table_check ud.dest_addr; process_found n ip_src ud rt v

-- The loop, which ends with `dest_count` at 0.
unfoldable pub process_udests : Bool → ℕ → List Udest → Pending → M Pending
unfolding process_udest
process_udests n ip_src [] v s = (v, s)
process_udests n ip_src (ud ∷ l) v s =
    let (v', s') = process_udest n ip_src ud v s in process_udests n ip_src l v' s'

abbrev pub send_unicast : ℕ → Option ℕ → M ⊤
send_unicast dest none = skip
send_unicast dest (some rt) = send_rerr dest

-- A RERR for one precursor goes out only if there is an entry for that precursor.
unfoldable pub finish_rerr : Pending → M ⊤
unfolding send_rerr rt_table_check
finish_rerr v = when v.rerr (
    if v.unicast == 0
    then send_rerr aodv_broadcast
    else (do rt ← rt_table_check v.unicast; send_unicast v.unicast rt))

unfoldable pub rerr_process : Rerr → ℕ → ℕ → M ⊤
unfolding process_udests finish_rerr
rerr_process m len ip_src =
    if ltb len (rerr_calc_size m)
    then skip
    else (do v ← process_udests m.n ip_src m.udests no_pending; finish_rerr v)
