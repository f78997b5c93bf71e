-- ===== src/Netlink.antt =====
-- nl.c: the messages that the daemon sends to its kernel module and to the kernel's routing.
-- A result -1 is `false`, 0 is `true`.
pub mod Attr
use aodv.Base.{
  ℕ, ◌+◌, Bool, false, Option, none, some, ◌∷◌, ℤ, pos, negsuc, ltb_ℤ, pos_part, ◌==◌,
  if◌then◌else◌,
}
use aodv.Node.{
  State, M, pure, get, ◌>>=◌, RtFlags, NlMsg, add_route, del_route, noroute_found, config, rtm,
  RtmAction, rtm_newroute, rtm_delroute,
}

abbrev pub log_if : Bool → NlMsg → State → State
log_if ok m s = if ok then record s { nl_sent = m ∷ s.nl_sent } else s

-- nl_send on `aodvnl`, and on `rtnl`: the sequence number goes up, and sendmsg may fail.
unfoldable pub nl_send_aodv : NlMsg → M Bool
nl_send_aodv m s =
    let seq : ℕ = s.aodvnl_seqno + 1 in
    let ok : Bool = s.env.sendmsg m seq in (ok, log_if ok m (record s { aodvnl_seqno = seq }))

unfoldable pub nl_send_rt : NlMsg → M Bool
nl_send_rt m s =
    let seq : ℕ = s.rtnl_seqno + 1 in
    let ok : Bool = s.env.sendmsg m seq in (ok, log_if ok m (record s { rtnl_seqno = seq }))

-- The gateway is an attribute if it is not the destination; the interface if its index is positive.
-- `nm` is always NULL, so the prefix is the whole address.
unfoldable pub nl_kernel_route : RtmAction → ℤ → ℕ → ℕ → ℕ → M Bool
unfolding nl_send_rt
nl_kernel_route action index dest gw metric =
    let gateway : Option ℕ = (if dest == gw then none else some gw) in
    let oif : Option ℕ = (if ltb_ℤ (pos 0) index then some (pos_part index) else none) in
    nl_send_rt (rtm action dest gateway oif metric)

unfoldable pub nl_send_add_route_msg : ℕ → ℕ → ℕ → ℕ → RtFlags → ℕ → M Bool
unfolding nl_send_aodv nl_kernel_route
nl_send_add_route_msg dest next_hop metric lifetime rt_flags ifindex = do
  ok ← nl_send_aodv (add_route dest next_hop lifetime ifindex rt_flags.inet_dest rt_flags.repair)
  if ok then nl_kernel_route rtm_newroute (pos ifindex) dest next_hop metric else pure false

unfoldable pub nl_send_no_route_found_msg : ℕ → M Bool
unfolding nl_send_aodv
nl_send_no_route_found_msg dest = nl_send_aodv (noroute_found dest)

unfoldable pub nl_send_del_route_msg : ℕ → ℕ → ℕ → M Bool
unfolding nl_send_aodv nl_kernel_route
nl_send_del_route_msg dest next_hop metric = do
  ok ← nl_send_aodv (del_route dest next_hop)
  if ok then nl_kernel_route rtm_delroute (negsuc 0) dest next_hop metric else pure false

unfoldable pub nl_send_conf_msg : M Bool
unfolding nl_send_aodv
nl_send_conf_msg = do s ← get; nl_send_aodv (config s.conf.active_route_timeout)
