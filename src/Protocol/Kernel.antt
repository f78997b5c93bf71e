-- ===== src/Protocol/Kernel.antt =====
-- nl.c: nl_kaodv_callback, the handler of the kernel module's messages.
use aodv.Base.{ℕ, Bool, false, ◌||◌, Option, none, some, pos, ◌==◌, if◌then◌else◌}
use aodv.Timer.{worb_timer}
use aodv.Msg.{no_rreq_flags, aodv_broadcast}
use aodv.Node.{State, ⊤, M, pure, skip, when, get, ◌>>=◌, ◌>>◌, set_timeout, is_valid}
use aodv.Routing.Table.{deref, rt_table_check}
use aodv.Routing.Rerr.{rerr_create}
use aodv.Routing.Route.{rt_table_update_timeout, rt_table_update_route_timeouts, if_some}
use aodv.Routing.Neighbor.{send_rerr as send_rerr_to}
use aodv.Protocol.Rreq.{rreq_route_discovery, rreq_local_repair}
use aodv.Protocol.Timeout.{route_expire_timeout}

-- KAODVM_TIMEOUT, KAODVM_ROUTE_REQ, KAODVM_REPAIR, KAODVM_ROUTE_UPDATE and KAODVM_SEND_RERR;
-- `other` is a message that is only logged.
pub data KernelMsg : Type 0 where
  timeout route_req : (dest : ℕ) → KernelMsg
  repair route_update send_rerr : (dest src : ℕ) → KernelMsg
  other : KernelMsg

abbrev pub expire_valid : ℕ → M ⊤
expire_valid rt = do e ← deref rt; when (is_valid e.state) (route_expire_timeout rt)

-- The RERR about a destination with or without an entry.
abbrev pub rerr_about : ℕ → Option ℕ → M ⊤
rerr_about dest none = rerr_create false dest 0
rerr_about dest (some fwd_rt) = do
  e ← deref fwd_rt
  rerr_create false e.dest_addr e.dest_seqno
  s ← get
  rt_table_update_timeout fwd_rt s.conf.delete_period

abbrev pub rerr_dest : Option ℕ → M ℕ
rerr_dest none = pure aodv_broadcast
rerr_dest (some rev_rt) = do
  e ← deref rev_rt
  pure (if is_valid e.state then e.next_hop else aodv_broadcast)

unfoldable pub send_unsolicited : ℕ → ℕ → M ⊤
unfolding rt_table_check rerr_create rt_table_update_timeout send_rerr_to
send_unsolicited dest src = do
  fwd_rt ← rt_table_check dest
  rev_rt ← rt_table_check src
  rerr_about dest fwd_rt
  to ← rerr_dest rev_rt
  send_rerr_to to
  s ← get
  when s.wait_on_reboot (set_timeout worb_timer (pos s.conf.delete_period))

abbrev pub is_broadcast : ℕ → State → Bool
is_broadcast dest s = dest == aodv_broadcast || dest == s.this_host.broadcast

unfoldable pub nl_kaodv_callback : KernelMsg → M ⊤
unfolding rt_table_check route_expire_timeout rreq_route_discovery rreq_local_repair
    rt_table_update_route_timeouts send_unsolicited
nl_kaodv_callback (timeout dest) = do rt ← rt_table_check dest; if_some rt expire_valid
nl_kaodv_callback (route_req dest) = rreq_route_discovery dest no_rreq_flags
nl_kaodv_callback (repair dest src) = do
  rt ← rt_table_check dest
  if_some rt λ p. rreq_local_repair p src
nl_kaodv_callback (route_update dest src) = do
  s ← get
  if is_broadcast dest s then skip else (do
    fwd_rt ← rt_table_check dest
    rev_rt ← rt_table_check src
    rt_table_update_route_timeouts fwd_rt rev_rt)
nl_kaodv_callback (send_rerr dest src) = do
  s ← get
  if is_broadcast dest s then skip else send_unsolicited dest src
nl_kaodv_callback other = skip
