-- ===== src/Trace/Lost.antt =====
-- aodv_rerr.c: what a RERR leaves of the routes by its sender.
pub mod One
use aodv.Base.{
  ℕ, ◌≤◌, ◌≡◌, ◌≢◌, ◌⊎◌, refl, sym, subst, ap, ap₂, pos, ◌∙◌, Bool, true, false, not, ◌&&◌, Option,
  none, some, List, [], ◌∷◌, All, ltb, s32_lt, ◌==◌, if◌then◌else◌, if-keep, Bool-cases,
  Option-cases, inl, inr, ℕ_discrete, arith,
}
use aodv.Msg.{Rerr, Udest, rerr_calc_size, aodv_broadcast}
use aodv.Node.{State, ⊤, M, when, skip, pure, ◌>>=◌, ◌>>◌, is_valid, RtEntry, RoutingTable}
use aodv.Routing.Table.{
  lookup, find, hashing, entry_at, deref, write_rt, write_table, rt_table_check,
}
use aodv.Routing.Store.{IsTable, as_key, map_entry, lookup-write_table}
use aodv.Routing.Find.{rt_table_check-lookup}
use aodv.Routing.Contract.{rt_table_invalidate-lookup}
use aodv.Routing.Route.{rt_table_invalidate, precursor_list_destroy, drop_precursors}
use aodv.Routing.Rerr.{rerr_create, rerr_add_udest, calc_size}
use aodv.Routing.Neighbor.{Pending, no_pending, report_udest, send_rerr}
use aodv.Routing.Fade.Runs.{OnlyFades-renumber}
use aodv.Routing.Break.Route.{IsCut, IsCut-Fades, invalidate-IsCut, find-dest}
use aodv.Socket.{aodv_socket_new_msg}
use aodv.Socket.Frame.{send-rt_tbl}
use aodv.Protocol.Rerr.{
  is_lost, lose_route, process_found, process_udest, process_udests, finish_rerr, send_unicast,
  rerr_process,
}
use aodv.Trace.Messages.{Runs-process_udest}
use aodv.Trace.Table.{Steps-IsTable}
use aodv.Trace.Lost.One.{
  NoneBy, Processed, udest-Processed, Processed-num, Processed-NoneBy, keeps-NoneBy,
}

-- The loop over the destinations of the RERR.
module _ (src : ℕ) where
  loop-keeps :
      (l : List Udest) (other : Udest) (v : Pending) (s : State)
      → IsTable s.rt_tbl
      → s.rt_tbl.num_entries ≢ 0
      → NoneBy src s.rt_tbl other
      → NoneBy src (process_udests false src l v s).1.rt_tbl other
  unfolding process_udests
  loop-keeps [] other v s t n h = h
  loop-keeps (ud ∷ l) other v s t n h =
      let (v', s') = process_udest false src ud v s in
      let p : Processed src ud s.rt_tbl s'.rt_tbl = udest-Processed src ud v s t n in
      loop-keeps l other v' s' (Steps-IsTable ((Runs-process_udest false src ud v).run s) t)
        (λ z. n (sym (Processed-num src ud p) ∙ z)) (keeps-NoneBy src ud other p h)

  loop-loses :
      (l : List Udest) (v : Pending) (s : State)
      → IsTable s.rt_tbl
      → s.rt_tbl.num_entries ≢ 0
      → All (NoneBy src (process_udests false src l v s).1.rt_tbl) l
  unfolding process_udests
  loop-loses [] v s t n = tt
  loop-loses (ud ∷ l) v s t n =
      let (v', s') = process_udest false src ud v s in
      let p : Processed src ud s.rt_tbl s'.rt_tbl = udest-Processed src ud v s t n in
      let t' : IsTable s'.rt_tbl = Steps-IsTable ((Runs-process_udest false src ud v).run s) t in
      let n' : s'.rt_tbl.num_entries ≢ 0 = λ z. n (sym (Processed-num src ud p) ∙ z) in
      (loop-keeps l ud v' s' t' n' (Processed-NoneBy src ud p), loop-loses l v' s' t' n')

send_rerr-rt_tbl : (d : ℕ) (s : State) → (send_rerr d s).1.rt_tbl ≡ s.rt_tbl
unfolding send_rerr
send_rerr-rt_tbl d s = send-rt_tbl d (calc_size s.send_buf) (pos 1) s

send_unicast-rt_tbl : (d : ℕ) (o : Option ℕ) (s : State) → (send_unicast d o s).1.rt_tbl ≡ s.rt_tbl
send_unicast-rt_tbl d none s = refl
send_unicast-rt_tbl d (some p) s = send_rerr-rt_tbl d s

finish-rt_tbl : (v : Pending) (s : State) → (finish_rerr v s).1.rt_tbl ≡ s.rt_tbl
unfolding finish_rerr rt_table_check
finish-rt_tbl v s =
    let leaves : M ⊤ → Type 0 = λ m. (m s).1.rt_tbl ≡ s.rt_tbl in
    if-keep leaves v.rerr
      (if-keep leaves (v.unicast == 0) (send_rerr-rt_tbl aodv_broadcast s)
        (send_unicast-rt_tbl v.unicast (rt_table_check v.unicast s).0 s))
      refl

-- A RERR that does not forbid it (RERR_NODELETE is not set) takes the routes away: afterwards, for none of
-- the destinations that it lists is there a valid route by its sender whose sequence number is not newer
-- than the one listed; a route with an equal number is lost too, against the comment at
-- aodv_rerr.c:66. It is so for a RERR as long as its count says, on a table in order that counts an entry.
pub rerr_process-loses :
    (m : Rerr) (len src : ℕ) (s : State)
    → m.n ≡ false
    → rerr_calc_size m ≤ len
    → IsTable s.rt_tbl
    → s.rt_tbl.num_entries ≢ 0
    → All (NoneBy src (rerr_process m len src s).1.rt_tbl) m.udests
unfolding rerr_process
rerr_process-loses m len src s no_flag l t n =
    let run : Bool → Bool → RoutingTable = λ short flag.
      ((if short then skip else (do v ← process_udests flag src m.udests no_pending; finish_rerr v))
        s).1.rt_tbl in
    let fits : ltb len (rerr_calc_size m) ≡ false = ground (arith, l) in
    let (v, s') = process_udests false src m.udests no_pending s in
    subst (λ (x : RoutingTable). All (NoneBy src x) m.udests)
      (sym (ap₂ run fits no_flag ∙ finish-rt_tbl v s')) (loop-loses src m.udests no_pending s t n)
