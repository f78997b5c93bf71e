-- ===== src/Trace/Routing.antt =====
-- The functions of the routing table are made of steps.
use aodv.Base.{
  ℕ, pos, not, ◌==◌, inl, inr, Option-cases, Bool, true, false, List, [], ◌∷◌, Option, none, some,
  ◌≡◌, refl, zero, suc,
}
use aodv.Timer.{
  Timeval, rt_timer, ack_timer, hello_timer, route_expire_timeout, rrep_ack_timeout, hello_timeout,
}
use aodv.Msg.{Msg, RreqFlags}
use aodv.Node.{
  State, ⊤, M, when, pure, set_timeout, is_valid, ◌>>=◌, ◌>>◌, RtFlags, RtState, NlMsg, SeekEntry,
}
use aodv.Netlink.{
  log_if, nl_send_aodv, nl_send_rt, nl_kernel_route, nl_send_add_route_msg,
  nl_send_no_route_found_msg, nl_send_del_route_msg,
}
use aodv.Socket.{aodv_socket_new_msg, aodv_socket_queue_msg}
use aodv.Routing.Table.{rt_table_check, lookup, for_each, for_buckets, bucket_keys}
use aodv.Routing.Seek.{seek_list_check, seek_list_insert, seek_list_remove, on_seek}
use aodv.Routing.Rerr.{rerr_create, rerr_add_udest}
use aodv.Routing.Route.{
  new_entry, end_seek, start_route, link_route, rt_table_insert, rt_table_update_timeout,
  rt_table_update_route_timeouts, keep_invalid, rt_table_invalidate, precursor_add,
  precursor_list_destroy, rt_table_delete, if_some, prolong_next_hop,
}
use aodv.Routing.Neighbor.{
  Pending, report_udest, send_rerr, break_route, finish_break, neighbor_link_break, leave_neighbor,
  announce, rt_table_update, hello_update_timeout, refresh_neighbor, neighbor_add,
}
use aodv.Trace.Step.{
  here, then_step, counts, links, Steps-trans, Step, Steps, Runs, one, runs, inits, writes_table,
  asks_kernel, asks_rtnl,
}

pub Runs-new_msg : Runs aodv_socket_new_msg
unfolding aodv_socket_new_msg
Runs-new_msg = search runs

pub Runs-queue_msg : (m : Msg) → Runs (aodv_socket_queue_msg m)
unfolding aodv_socket_queue_msg
Runs-queue_msg m = search runs

log_kernel :
    (ok : Bool) (m : NlMsg) (n : ℕ) (s : State)
    → Step s (log_if ok m (record s { aodvnl_seqno = n }))
log_kernel true m n s = asks_kernel s n (m ∷ s.nl_sent)
log_kernel false m n s = asks_kernel s n s.nl_sent

log_rtnl :
    (ok : Bool) (m : NlMsg) (n : ℕ) (s : State) → Step s (log_if ok m (record s { rtnl_seqno = n }))
log_rtnl true m n s = asks_rtnl s n (m ∷ s.nl_sent)
log_rtnl false m n s = asks_rtnl s n s.nl_sent

pub Runs-nl_send_aodv : (m : NlMsg) → Runs (nl_send_aodv m)
unfolding nl_send_aodv
Runs-nl_send_aodv m = record { run = λ s. one (log_kernel (s.env.sendmsg m _) m _ s) }

Runs-nl_send_rt : (m : NlMsg) → Runs (nl_send_rt m)
unfolding nl_send_rt
Runs-nl_send_rt m = record { run = λ s. one (log_rtnl (s.env.sendmsg m _) m _ s) }

pub Runs-no_route_found : (dest : ℕ) → Runs (nl_send_no_route_found_msg dest)
unfolding nl_send_no_route_found_msg
Runs-no_route_found dest = Runs-nl_send_aodv _

ruleset netlink_runs = (runs, Runs-nl_send_aodv, Runs-nl_send_rt)

pub Runs-add_route :
    (dest hop metric life : ℕ) (f : RtFlags) (i : ℕ)
    → Runs (nl_send_add_route_msg dest hop metric life f i)
unfolding nl_send_add_route_msg nl_kernel_route
Runs-add_route dest hop metric life f i = search netlink_runs

pub Runs-del_route : (dest hop metric : ℕ) → Runs (nl_send_del_route_msg dest hop metric)
unfolding nl_send_del_route_msg nl_kernel_route
Runs-del_route dest hop metric = search netlink_runs

pub Runs-rt_table_check : (d : ℕ) → Runs (rt_table_check d)
unfolding rt_table_check
Runs-rt_table_check d = search runs

pub Runs-seek_list_check : (d : ℕ) → Runs (seek_list_check d)
unfolding seek_list_check
Runs-seek_list_check d = search runs

pub Runs-on_seek : (d : ℕ) (f : SeekEntry → SeekEntry) → Runs (on_seek d f)
Runs-on_seek d f = search runs

pub Runs-seek_list_remove : (e : Option ℕ) → Runs (seek_list_remove e)
unfolding seek_list_remove
Runs-seek_list_remove none = search runs
Runs-seek_list_remove (some d) = search runs

pub Runs-seek_list_insert : (d q t : ℕ) (f : RreqFlags) → Runs (seek_list_insert d q t f)
unfolding seek_list_insert
Runs-seek_list_insert d q t f = search runs

pub Runs-rerr_create : (n : Bool) (d q : ℕ) → Runs (rerr_create n d q)
unfolding rerr_create
Runs-rerr_create n d q = search (runs, Runs-new_msg)

pub Runs-rerr_add_udest : (d q : ℕ) → Runs (rerr_add_udest d q)
unfolding rerr_add_udest
Runs-rerr_add_udest d q = search runs

pub Runs-end_seek : (d : ℕ) → Runs (end_seek d)
unfolding end_seek
Runs-end_seek d = search (runs, Runs-seek_list_remove)

pub Runs-start_route : (d n h l : ℕ) (st : RtState) (f : RtFlags) → Runs (start_route d n h l st f)
unfolding start_route
Runs-start_route d n h l st f = search (runs, Runs-add_route) depth 8

-- The three timers, the count and the link, of a destination that is not in the table.
link_route-Steps :
    (d n h q : ℕ) (st : RtState) (f : RtFlags) (s : State)
    → lookup d s.rt_tbl ≡ none
    → Steps s (link_route d n h q st f s).1
unfolding link_route lookup
link_route-Steps d n h q st f s new =
    let timers : Steps s _ =
      then_step
        (then_step (one (inits s (rt_timer d) route_expire_timeout refl refl))
          (inits _ (ack_timer d) rrep_ack_timeout refl refl))
        (inits _ (hello_timer d) hello_timeout refl refl) in
    then_step (then_step timers (writes_table _ _ (counts s.rt_tbl _ s.rt_tbl.num_active)))
      (writes_table _ _ (links _ (new_entry d n h q st f) refl new))

abbrev finish_insert : (d n h l : ℕ) (st : RtState) (f : RtFlags) → M (Option ℕ)
finish_insert d n h l st f = do
  life ← start_route d n h l st f
  when (not (life == 0)) (set_timeout (rt_timer d) (pos life))
  when (is_valid st) (end_seek d)
  pure (some d)

Runs-finish_insert : (d n h l : ℕ) (st : RtState) (f : RtFlags) → Runs (finish_insert d n h l st f)
Runs-finish_insert d n h l st f = search (runs, Runs-start_route, Runs-end_seek) depth 8

pub Runs-insert :
    (d n h q l : ℕ) (st : RtState) (f : RtFlags) → Runs (rt_table_insert d n h q l st f)
unfolding rt_table_insert lookup
Runs-insert d n h q l st f = record { run = run_insert }
  where
    run_insert : (s : State) → Steps s (rt_table_insert d n h q l st f s).1
    run_insert s = elim (Option-cases (lookup d s.rt_tbl)) [
      | inl e ↦
          rw (e, rt_table_insert)
            (Steps-trans (link_route-Steps d n h q st f s e)
              ((Runs-finish_insert d n h l st f).run (link_route d n h q st f s).1))
      | inr (x, e) ↦ rw (e, rt_table_insert) (here s)
    ]

pub Runs-update_timeout : (d l : ℕ) → Runs (rt_table_update_timeout d l)
unfolding rt_table_update_timeout
Runs-update_timeout d l = search runs depth 8

pub Runs-if_some : (o : Option ℕ) (f : ℕ → M ⊤) → ((p : ℕ) → Runs (f p)) → Runs (if_some o f)
Runs-if_some none f h = search runs
Runs-if_some (some p) f h = h p

Runs-prolong_next_hop : (d : ℕ) (o : Option ℕ) → Runs (prolong_next_hop d o)
Runs-prolong_next_hop d none = search runs
Runs-prolong_next_hop d (some p) = search (runs, Runs-update_timeout) depth 8

pub Runs-update_route_timeouts : (a b : Option ℕ) → Runs (rt_table_update_route_timeouts a b)
unfolding rt_table_update_route_timeouts
Runs-update_route_timeouts a b =
    search (runs, Runs-if_some, Runs-prolong_next_hop, Runs-update_timeout) depth 12

pub Runs-invalidate : (d : ℕ) → Runs (rt_table_invalidate d)
unfolding rt_table_invalidate keep_invalid
Runs-invalidate d = search (runs, Runs-del_route) depth 14

pub Runs-precursor_add : (d a : ℕ) → Runs (precursor_add d a)
unfolding precursor_add
Runs-precursor_add d a = search runs

pub Runs-precursor_list_destroy : (d : ℕ) → Runs (precursor_list_destroy d)
unfolding precursor_list_destroy
Runs-precursor_list_destroy d = search runs

pub Runs-delete : (d : ℕ) → Runs (rt_table_delete d)
unfolding rt_table_delete
Runs-delete d = search (runs, Runs-del_route) depth 12

module _ {L : Type 0} (body : ℕ → L → M L) (h : (p : ℕ) (v : L) → Runs (body p v)) where
  for_each-Steps : (l : List ℕ) (v : L) (s : State) → Steps s (for_each body l v s).1
  unfolding for_each
  for_each-Steps [] v s = here s
  for_each-Steps (p ∷ l) v s =
      Steps-trans ((h p v).run s) (for_each-Steps l (body p v s).0 (body p v s).1)

  for_buckets-Steps : (n i : ℕ) (v : L) (s : State) → Steps s (for_buckets n i body v s).1
  unfolding for_buckets
  for_buckets-Steps zero i v s = here s
  for_buckets-Steps (suc n) i v s =
      Steps-trans (for_each-Steps (bucket_keys i s.rt_tbl) v s) (for_buckets-Steps n _ _ _)

  pub Runs-for_buckets : (n i : ℕ) (v : L) → Runs (for_buckets n i body v)
  Runs-for_buckets n i v = record { run = for_buckets-Steps n i v }

pub Runs-report_udest : (n : Bool) (d : ℕ) (v : Pending) → Runs (report_udest n d v)
unfolding report_udest
Runs-report_udest n d v = search (runs, Runs-rerr_create, Runs-rerr_add_udest) depth 8

pub Runs-send_rerr : (d : ℕ) → Runs (send_rerr d)
unfolding send_rerr
Runs-send_rerr d = search runs

Runs-break_route : (d u : ℕ) (v : Pending) → Runs (break_route d u v)
unfolding break_route
Runs-break_route d u v = search (runs, Runs-invalidate, Runs-report_udest) depth 12

pub Runs-link_break : (d : ℕ) → Runs (neighbor_link_break d)
unfolding neighbor_link_break finish_break
Runs-link_break d =
    search
      (runs, Runs-invalidate, Runs-report_udest, Runs-send_rerr, Runs-for_buckets, Runs-break_route)
      depth 14

Runs-leave_neighbor : (d h : ℕ) → Runs (leave_neighbor d h)
unfolding leave_neighbor
Runs-leave_neighbor d h = search (runs, Runs-link_break) depth 8

Runs-announce : (d n h l : ℕ) (st : RtState) (f : RtFlags) → Runs (announce d n h l st f)
unfolding announce
Runs-announce d n h l st f = search (runs, Runs-add_route) depth 10

pub Runs-update :
    (d n h q l : ℕ) (st : RtState) (f : RtFlags) → Runs (rt_table_update d n h q l st f)
unfolding rt_table_update
Runs-update d n h q l st f =
    search (runs, Runs-announce, Runs-leave_neighbor, Runs-update_timeout, Runs-end_seek) depth 14

pub Runs-hello_update_timeout :
    (d : ℕ) (now : Timeval) (t : ℕ) → Runs (hello_update_timeout d now t)
unfolding hello_update_timeout
Runs-hello_update_timeout d now t = search runs

Runs-refresh_neighbor : (d : ℕ) (o : Option ℕ) (now : Timeval) → Runs (refresh_neighbor d o now)
Runs-refresh_neighbor d none now = search (runs, Runs-insert, Runs-hello_update_timeout) depth 10
Runs-refresh_neighbor d (some p) now =
    search (runs, Runs-update, Runs-hello_update_timeout) depth 10

pub Runs-neighbor_add : (d : ℕ) → Runs (neighbor_add d)
unfolding neighbor_add
Runs-neighbor_add d = search (runs, Runs-refresh_neighbor)
