-- ===== src/Kaodv/Hook.antt =====
-- kaodv_mod.c and kaodv_mod.h: what the module does with each packet, and the events that it sees.
use aodv.Base.{
  ℕ, ◌+◌, ◌*◌, ◌/◌, Bool, not, ◌&&◌, ◌||◌, Option, none, some, List, [], ◌∷◌, ◌==◌, if◌then◌else◌,
}
use aodv.Kaodv.Defs.{
  ExplEntry, Iphdr, SkBuff, Hooknum, pre_routing, local_out, post_routing, IfInfo, pkt_inbound,
  pkt_outbound, kaodvm_route_req, kaodvm_repair, Kernel,
}
use aodv.Kaodv.Expl.{kaodv_expl_get, kaodv_expl_update}
use aodv.Kaodv.Ipenc.{ip_pkt_encapsulate}
use aodv.Kaodv.Notify.{
  kaodv_netlink_send_rt_msg, kaodv_netlink_send_rt_update_msg, kaodv_netlink_send_rerr_msg,
}
use aodv.Kaodv.Queue.{kaodv_queue_check, kaodv_queue_enqueue_packet}
use aodv.Kaodv.Peer.{NlSkb, kaodv_netlink_rcv_skb, kaodv_netlink_rcv_nl_event}

-- AODV_PORT, IPPROTO_UDP and INADDR_BROADCAST
abbrev pub aodv_port : ℕ
aodv_port = 654

abbrev pub ipproto_udp : ℕ
ipproto_udp = 17

abbrev pub inaddr_broadcast : ℕ
inaddr_broadcast = 4294967295

-- IN_MULTICAST: the top four bits are 1110.
abbrev pub in_multicast : ℕ → Bool
in_multicast a = a / 268435456 == 14

-- if_info_from_ifindex
unfoldable pub if_info_from_ifindex : ℕ → List IfInfo → Option IfInfo
if_info_from_ifindex i [] = none
if_info_from_ifindex i (x ∷ l) = if x.ifindex == i then some x else if_info_from_ifindex i l

-- The time of a route, if it is there, starts again; `none` if it is not there.
abbrev pub restart : ℕ → Option ExplEntry → Kernel → Kernel
restart dev none k = k
restart dev (some e) k = (kaodv_expl_update e.daddr e.nhop k.active_route_timeout e.flags dev k).1

-- The time of a route and of the route to its next hop.
abbrev pub restart_both : ℕ → Option ExplEntry → Kernel → Kernel
restart_both dev none k = k
restart_both dev (some e) k =
    let k' : Kernel = restart dev (some e) k in
    if e.nhop == e.daddr then k' else restart dev (kaodv_expl_get e.nhop k') k'

abbrev pub send_update : Hooknum → Iphdr → ℕ → ℕ → Kernel → Kernel
send_update pre_routing iph bc dev k =
    kaodv_netlink_send_rt_update_msg pkt_inbound iph.saddr iph.daddr dev k
send_update _ iph bc dev k =
    if not (iph.daddr == inaddr_broadcast) && not (iph.daddr == bc)
    then kaodv_netlink_send_rt_update_msg pkt_outbound iph.saddr iph.daddr dev k
    else k

abbrev pub update_known : Hooknum → Iphdr → ℕ → Option IfInfo → Kernel → Kernel
update_known hooknum iph dev none k = k
update_known hooknum iph dev (some i) k =
    let k1 : Kernel = send_update hooknum iph i.bc_addr dev k in
    let k2 : Kernel = restart_both dev (kaodv_expl_get iph.daddr k1) k1 in
    restart_both dev (kaodv_expl_get iph.saddr k2) k2

unfoldable pub kaodv_update_route_timeouts : Hooknum → ℕ → Iphdr → Kernel → Kernel
unfolding if_info_from_ifindex kaodv_expl_get kaodv_expl_update kaodv_netlink_send_rt_update_msg
kaodv_update_route_timeouts hooknum dev iph k =
    update_known hooknum iph dev (if_info_from_ifindex dev k.ifi) k

-- udph->source and udph->dest
abbrev pub udp_ports : List ℕ → ℕ × ℕ
udp_ports (a ∷ b ∷ c ∷ d ∷ l) = (a * 256 + b, c * 256 + d)
udp_ports _ = (0, 0)

abbrev pub is_aodv : SkBuff → Bool
is_aodv skb =
    let (source, dest) = udp_ports skb.body in
    skb.iph.protocol == ipproto_udp && (dest == aodv_port || source == aodv_port)

-- What a hook answers.
pub data NfVerdict : Type 0 where
  nf_accept nf_drop nf_stolen : NfVerdict

-- The packet goes to the queue; whether it found room there is not looked at.
abbrev pub steal : SkBuff → Hooknum → Kernel → NfVerdict × Kernel
steal skb okfn k = (nf_stolen, (kaodv_queue_enqueue_packet skb okfn k).1)

-- A packet of another node, for another node.
abbrev pub forward : SkBuff → ℕ → Option ExplEntry → Kernel → NfVerdict × Kernel
forward skb dev none k =
    (nf_drop, kaodv_netlink_send_rerr_msg pkt_inbound skb.iph.saddr skb.iph.daddr dev k)
forward skb dev (some e) k =
    if e.flags.repair
    then steal skb pre_routing
        (kaodv_netlink_send_rt_msg kaodvm_repair skb.iph.saddr skb.iph.daddr k)
    else (nf_accept, k)

-- A packet of this node waits for its route, and the first one that waits asks for it.
abbrev pub wait_for_route : SkBuff → Kernel → NfVerdict × Kernel
wait_for_route skb k = steal skb local_out (
    if kaodv_queue_check skb.iph.daddr k
    then k
    else kaodv_netlink_send_rt_msg kaodvm_route_req 0 skb.iph.daddr k)

abbrev pub encap_verdict : Option SkBuff → Kernel → NfVerdict × Kernel
encap_verdict none k = (nf_stolen, k)
encap_verdict (some skb) k = (nf_accept, k)

abbrev pub send_own : SkBuff → ℕ → Option ExplEntry → Kernel → NfVerdict × Kernel
send_own skb dev none k = wait_for_route skb k
send_own skb dev (some e) k =
    if e.flags.repair
    then wait_for_route skb k
    else if e.flags.gw_encap
    then (let k' : Kernel = kaodv_update_route_timeouts local_out dev skb.iph k in
        let (skb', k'') = ip_pkt_encapsulate skb e.nhop k' in encap_verdict skb' k'')
    else (nf_accept, k)

-- The switch on the hook.
abbrev pub by_hook : Hooknum → SkBuff → ℕ → ℕ → Kernel → NfVerdict × Kernel
by_hook pre_routing skb dev own k =
    let k' : Kernel = kaodv_update_route_timeouts pre_routing dev skb.iph k in
    if skb.iph.saddr == own || skb.iph.daddr == own
    then (nf_accept, k')
    else forward skb dev (kaodv_expl_get skb.iph.daddr k') k'
by_hook local_out skb dev own k = send_own skb dev (kaodv_expl_get skb.iph.daddr k) k
by_hook post_routing skb dev own k =
    (nf_accept, kaodv_update_route_timeouts post_routing dev skb.iph k)

abbrev pub aodv_packet : Hooknum → SkBuff → ℕ → Kernel → NfVerdict × Kernel
aodv_packet pre_routing skb dev k =
    (nf_accept, kaodv_update_route_timeouts pre_routing dev skb.iph k)
aodv_packet _ skb dev k = (nf_accept, k)

abbrev pub on_interface : Hooknum → SkBuff → ℕ → Option IfInfo → Kernel → NfVerdict × Kernel
on_interface hooknum skb dev none k = (nf_accept, k)
on_interface hooknum skb dev (some i) k =
    if skb.iph.daddr == inaddr_broadcast || in_multicast skb.iph.daddr || skb.iph.daddr == i.bc_addr
    then (nf_accept, k)
    else by_hook hooknum skb dev i.if_addr k

-- `dev` is the index of `in` at NF_INET_PRE_ROUTING, and of `out` at the others.
unfoldable pub kaodv_hook : Hooknum → SkBuff → ℕ → Kernel → NfVerdict × Kernel
unfolding kaodv_update_route_timeouts if_info_from_ifindex kaodv_expl_get kaodv_queue_check
    kaodv_queue_enqueue_packet kaodv_netlink_send_rt_msg kaodv_netlink_send_rerr_msg
    ip_pkt_encapsulate
kaodv_hook hooknum skb dev k =
    if is_aodv skb
    then aodv_packet hooknum skb dev k
    else on_interface hooknum skb dev (if_info_from_ifindex dev k.ifi) k

-- What the module reacts to: a packet at a hook, a netlink message, the release of a socket; and time.
pub data KernelEvent : Type 0 where
  packet : Hooknum → SkBuff → ℕ → KernelEvent
  netlink : NlSkb → KernelEvent
  release : (portid : ℕ) → KernelEvent
  elapse : (jiffies : ℕ) → KernelEvent

unfoldable pub kernel_step : KernelEvent → Kernel → Kernel
unfolding kaodv_hook kaodv_netlink_rcv_skb kaodv_netlink_rcv_nl_event
kernel_step (packet hooknum skb dev) k = (kaodv_hook hooknum skb dev k).1
kernel_step (netlink m) k = kaodv_netlink_rcv_skb m k
kernel_step (release portid) k = kaodv_netlink_rcv_nl_event portid k
kernel_step (elapse n) k = record k { jiffies = k.jiffies + n }

unfoldable pub kernel_run : List KernelEvent → Kernel → Kernel
unfolding kernel_step
kernel_run [] k = k
kernel_run (v ∷ l) k = kernel_run l (kernel_step v k)
