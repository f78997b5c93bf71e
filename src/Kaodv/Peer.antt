-- ===== src/Kaodv/Peer.antt =====
-- kaodv_netlink.c: the messages that the module receives.
use aodv.Base.{
  ℕ, ◌-◌, Bool, not, ◌&&◌, ◌||◌, is_some, ◌∷◌, ℤ, pos, negsuc, ltb, ltb_ℤ, s32_le, s32_lt, ◌==◌,
  if◌then◌else◌,
}
use aodv.Kaodv.Defs.{ExplFlags, Kernel}
use aodv.Kaodv.Expl.{
  einval, kaodv_expl_get, kaodv_expl_add, kaodv_expl_update, kaodv_expl_del, kaodv_expl_flush,
}
use aodv.Kaodv.Queue.{
  Verdict, kaodv_queue_drop, kaodv_queue_send, kaodv_queue_set_verdict, kaodv_queue_flush,
}

-- The messages of the daemon with the fields that the module reads of them.
pub data PeerMsg : Type 0 where
  addroute : (dest nhop time : ℕ) (flags : ExplFlags) (ifindex : ℕ) → PeerMsg
  delroute noroute_found : (dest : ℕ) → PeerMsg
  config : (active_route_timeout : ℕ) → PeerMsg
  unknown : PeerMsg

abbrev pub set_verdict : Verdict → ℕ → Kernel → Kernel
set_verdict v dest k = (kaodv_queue_set_verdict v dest k).1

-- The case of KAODVM_ADDROUTE: the route, and then the packets that wait for it.
unfoldable pub add_route : ℕ → ℕ → ℕ → ExplFlags → ℕ → Kernel → ℤ × Kernel
unfolding kaodv_expl_get kaodv_expl_add kaodv_expl_update kaodv_queue_set_verdict
add_route dest nhop time flags ifindex k =
    let (ret, k') =
      (if is_some (kaodv_expl_get dest k)
        then kaodv_expl_update dest nhop time flags ifindex k
        else kaodv_expl_add dest nhop time flags ifindex k) in
    (ret, set_verdict kaodv_queue_send dest k')

unfoldable pub kaodv_netlink_receive_peer : PeerMsg → ℕ → Kernel → ℤ × Kernel
unfolding add_route kaodv_expl_del kaodv_queue_set_verdict
kaodv_netlink_receive_peer (addroute dest nhop time flags ifindex) len k =
    if ltb len k.env.rt_msg_size then (einval, k) else add_route dest nhop time flags ifindex k
kaodv_netlink_receive_peer (delroute dest) len k =
    if ltb len k.env.rt_msg_size
    then (einval, k)
    else (pos 0, set_verdict kaodv_queue_drop dest (kaodv_expl_del dest k).1)
kaodv_netlink_receive_peer (noroute_found dest) len k =
    if ltb len k.env.rt_msg_size then (einval, k) else (pos 0, set_verdict kaodv_queue_drop dest k)
kaodv_netlink_receive_peer (config timeout) len k =
    if ltb len k.env.conf_msg_size
    then (einval, k)
    else (pos 0, record k { active_route_timeout = timeout })
kaodv_netlink_receive_peer unknown len k = (einval, k)

-- A netlink message: its length in the buffer and in its header, the sender's `nlmsg_pid`, and the flags
-- NLM_F_REQUEST, NLM_F_MULTI, MSG_TRUNC and NLM_F_ACK.
pub record NlSkb : Type 0 where
  pub skblen : ℕ
  pub nlmsglen : ℕ
  pub pid : ℕ
  pub request : Bool
  pub multi : Bool
  pub trunc : Bool
  pub ack : Bool
  pub msg : PeerMsg

-- sizeof(struct nlmsghdr), which is NLMSG_LENGTH(0)
abbrev pub nlmsghdr_size : ℕ
nlmsghdr_size = 16

-- -ECOMM and -EBUSY
abbrev pub ecomm : ℤ
ecomm = negsuc 69

abbrev pub ebusy : ℤ
ebusy = negsuc 15

abbrev pub netlink_ack : ℤ → Kernel → Kernel
netlink_ack err k = record k { acks = err ∷ k.acks }

-- The end of kaodv_netlink_rcv_skb, for the peer's own messages.
unfoldable pub accept_peer : NlSkb → Kernel → Kernel
unfolding kaodv_netlink_receive_peer
accept_peer m k =
    let (status, k') = kaodv_netlink_receive_peer m.msg (m.skblen - nlmsghdr_size) k in
    if ltb_ℤ status (pos 0)
    then netlink_ack status k'
    else if m.ack
    then netlink_ack (pos 0) k'
    else k'

unfoldable pub kaodv_netlink_rcv_skb : NlSkb → Kernel → Kernel
unfolding accept_peer
kaodv_netlink_rcv_skb m k =
    if ltb m.skblen nlmsghdr_size || ltb m.nlmsglen nlmsghdr_size || s32_lt m.skblen m.nlmsglen
    then k
    else if s32_le m.pid 0 || not m.request || m.multi
    then netlink_ack einval k
    else if m.trunc
    then netlink_ack ecomm k
    else if k.peer_pid == 0
    then accept_peer m (record k { peer_pid = m.pid })
    else if k.peer_pid == m.pid
    then accept_peer m k
    else netlink_ack ebusy k

-- kaodv_netlink_rcv_nl_event, for the release of a socket of NETLINK_AODV.
unfoldable pub kaodv_netlink_rcv_nl_event : ℕ → Kernel → Kernel
unfolding kaodv_expl_flush kaodv_queue_flush
kaodv_netlink_rcv_nl_event portid k =
    if not (portid == 0) && portid == k.peer_pid
    then kaodv_queue_flush (kaodv_expl_flush (record k { peer_pid = 0 }))
    else k
