-- ===== src/Kaodv/Keep.antt =====
-- What a hook keeps: any property that the operations it calls keep.
use aodv.Base.{ℕ, Option, none, some, List, ◌==◌, not, ◌&&◌, ◌||◌, Bool-cases, inl, inr}
use aodv.Kaodv.Defs.{
  ExplFlags, ExplEntry, Iphdr, SkBuff, Hooknum, pre_routing, local_out, post_routing, IfInfo,
  KaodvMsg, Fate, Kernel, kmalloc,
}
use aodv.Kaodv.Expl.{kaodv_expl_get, kaodv_expl_update}
use aodv.Kaodv.Ipenc.{ip_pkt_encapsulate}
use aodv.Kaodv.Notify.{
  broadcast, kaodv_netlink_send_rt_msg, kaodv_netlink_send_rt_update_msg,
  kaodv_netlink_send_rerr_msg,
}
use aodv.Kaodv.Queue.{kaodv_queue_check, kaodv_queue_enqueue_packet}
use aodv.Kaodv.Hook.{
  restart, restart_both, send_update, update_known, kaodv_update_route_timeouts, forward,
  wait_for_route, encap_verdict, send_own, by_hook, aodv_packet, on_interface, kaodv_hook, is_aodv,
  if_info_from_ifindex, in_multicast, inaddr_broadcast,
}

-- Nothing but the logs and the count of allocations changes.
abbrev pub Quiet {ℓ} : (Kernel → Type ℓ) → Type ℓ
Quiet P =
    (m : List KaodvMsg) (a : ℕ) (f : List Fate) (k : Kernel)
    → P k
    → P (record k { to_daemon = m; allocs = a; fates = f })

abbrev pub KeptByUpdate {ℓ} : (Kernel → Type ℓ) → Type ℓ
KeptByUpdate P =
    (d n t : ℕ) (fl : ExplFlags) (i : ℕ) (k : Kernel) → P k → P (kaodv_expl_update d n t fl i k).1

abbrev pub KeptByEnqueue {ℓ} : (Kernel → Type ℓ) → Type ℓ
KeptByEnqueue P =
    (skb : SkBuff) (okfn : Hooknum) (k : Kernel) → P k → P (kaodv_queue_enqueue_packet skb okfn k).1

module _ {ℓ} (P : Kernel → Type ℓ) (quiet : Quiet P) (upd : KeptByUpdate P)
    (enq : KeptByEnqueue P) where
  broadcast-keep : (m : KaodvMsg) (k : Kernel) → P k → P (broadcast m k)
  unfolding broadcast kmalloc
  broadcast-keep m k p = elim (Bool-cases (k.env.kmalloc k.allocs)) [
    | inl h ↦ rw (h, broadcast) (quiet _ _ k.fates k p)
    | inr h ↦ rw (h, broadcast) (quiet k.to_daemon _ k.fates k p)
  ]

  encapsulate-keep : (skb : SkBuff) (d : ℕ) (k : Kernel) → P k → P (ip_pkt_encapsulate skb d k).1
  unfolding ip_pkt_encapsulate kmalloc
  encapsulate-keep skb d k p = elim (Bool-cases (k.env.kmalloc k.allocs)) [
    | inl h ↦ rw (h, ip_pkt_encapsulate) (quiet k.to_daemon _ k.fates k p)
    | inr h ↦ rw (h, ip_pkt_encapsulate) (quiet k.to_daemon _ _ k p)
  ]

  restart-keep : (dev : ℕ) (o : Option ExplEntry) (k : Kernel) → P k → P (restart dev o k)
  restart-keep dev none k p = p
  restart-keep dev (some e) k p = upd e.daddr e.nhop k.active_route_timeout e.flags dev k p

  restart_both-keep : (dev : ℕ) (o : Option ExplEntry) (k : Kernel) → P k → P (restart_both dev o k)
  restart_both-keep dev none k p = p
  restart_both-keep dev (some e) k p =
      let k' : Kernel = restart dev (some e) k in
      let p' : P k' = restart-keep dev (some e) k p in
      elim (Bool-cases (e.nhop == e.daddr)) [
        | inl h ↦ rw h p'
        | inr h ↦ rw h (restart-keep dev (kaodv_expl_get e.nhop k') k' p')
      ]

  send_update-keep :
      (h : Hooknum) (iph : Iphdr) (bc dev : ℕ) (k : Kernel) → P k → P (send_update h iph bc dev k)
  unfolding kaodv_netlink_send_rt_update_msg
  send_update-keep pre_routing iph bc dev k p = broadcast-keep _ k p
  send_update-keep local_out iph bc dev k p =
      elim (Bool-cases (not (iph.daddr == inaddr_broadcast) && not (iph.daddr == bc))) [
        | inl h ↦ rw h (broadcast-keep _ k p)
        | inr h ↦ rw h p
      ]
  send_update-keep post_routing iph bc dev k p =
      elim (Bool-cases (not (iph.daddr == inaddr_broadcast) && not (iph.daddr == bc))) [
        | inl h ↦ rw h (broadcast-keep _ k p)
        | inr h ↦ rw h p
      ]

  update_known-keep :
      (h : Hooknum) (iph : Iphdr) (dev : ℕ) (o : Option IfInfo) (k : Kernel)
      → P k
      → P (update_known h iph dev o k)
  update_known-keep h iph dev none k p = p
  update_known-keep h iph dev (some i) k p =
      let k1 : Kernel = send_update h iph i.bc_addr dev k in
      let k2 : Kernel = restart_both dev (kaodv_expl_get iph.daddr k1) k1 in
      restart_both-keep dev (kaodv_expl_get iph.saddr k2) k2 (
        restart_both-keep dev (kaodv_expl_get iph.daddr k1) k1
          (send_update-keep h iph i.bc_addr dev k p))

  timeouts-keep :
      (h : Hooknum) (dev : ℕ) (iph : Iphdr) (k : Kernel)
      → P k
      → P (kaodv_update_route_timeouts h dev iph k)
  unfolding kaodv_update_route_timeouts
  timeouts-keep h dev iph k p = update_known-keep h iph dev (if_info_from_ifindex dev k.ifi) k p

  forward-keep :
      (skb : SkBuff) (dev : ℕ) (o : Option ExplEntry) (k : Kernel) → P k → P (forward skb dev o k).1
  unfolding kaodv_netlink_send_rerr_msg kaodv_netlink_send_rt_msg
  forward-keep skb dev none k p = broadcast-keep _ k p
  forward-keep skb dev (some e) k p = elim (Bool-cases e.flags.repair) [
    | inl h ↦ rw h (enq _ _ _ (broadcast-keep _ k p))
    | inr h ↦ rw h p
  ]

  wait-keep : (skb : SkBuff) (k : Kernel) → P k → P (wait_for_route skb k).1
  unfolding kaodv_netlink_send_rt_msg
  wait-keep skb k p = elim (Bool-cases (kaodv_queue_check skb.iph.daddr k)) [
    | inl h ↦ rw h (enq _ _ _ p)
    | inr h ↦ rw h (enq _ _ _ (broadcast-keep _ k p))
  ]

  encap_verdict-keep : (o : Option SkBuff) (k : Kernel) → P k → P (encap_verdict o k).1
  encap_verdict-keep none k p = p
  encap_verdict-keep (some skb) k p = p

  send_own-keep :
      (skb : SkBuff) (dev : ℕ) (o : Option ExplEntry) (k : Kernel)
      → P k
      → P (send_own skb dev o k).1
  send_own-keep skb dev none k p = wait-keep skb k p
  send_own-keep skb dev (some e) k p =
      let k' : Kernel = kaodv_update_route_timeouts local_out dev skb.iph k in
      let (o, k'') = ip_pkt_encapsulate skb e.nhop k' in
      elim (Bool-cases e.flags.repair) [
        | inl h ↦ rw h (wait-keep skb k p)
        | inr h ↦ elim (Bool-cases e.flags.gw_encap) [
          | inl g ↦
              rw (h, g)
                (encap_verdict-keep o k''
                  (encapsulate-keep skb e.nhop k' (timeouts-keep local_out dev skb.iph k p)))
          | inr g ↦ rw (h, g) p
        ]
      ]

  by_hook-keep :
      (h : Hooknum) (skb : SkBuff) (dev own : ℕ) (k : Kernel) → P k → P (by_hook h skb dev own k).1
  by_hook-keep pre_routing skb dev own k p =
      let k' : Kernel = kaodv_update_route_timeouts pre_routing dev skb.iph k in
      elim (Bool-cases (skb.iph.saddr == own || skb.iph.daddr == own)) [
        | inl h ↦ rw h (timeouts-keep pre_routing dev skb.iph k p)
        | inr h ↦ rw h (
            forward-keep skb dev (kaodv_expl_get skb.iph.daddr k') k'
              (timeouts-keep pre_routing dev skb.iph k p))
      ]
  by_hook-keep local_out skb dev own k p =
      send_own-keep skb dev (kaodv_expl_get skb.iph.daddr k) k p
  by_hook-keep post_routing skb dev own k p = timeouts-keep post_routing dev skb.iph k p

  aodv_packet-keep :
      (h : Hooknum) (skb : SkBuff) (dev : ℕ) (k : Kernel) → P k → P (aodv_packet h skb dev k).1
  aodv_packet-keep pre_routing skb dev k p = timeouts-keep pre_routing dev skb.iph k p
  aodv_packet-keep local_out skb dev k p = p
  aodv_packet-keep post_routing skb dev k p = p

  on_interface-keep :
      (h : Hooknum) (skb : SkBuff) (dev : ℕ) (o : Option IfInfo) (k : Kernel)
      → P k
      → P (on_interface h skb dev o k).1
  on_interface-keep h skb dev none k p = p
  on_interface-keep h skb dev (some i) k p =
      elim (Bool-cases (
        skb.iph.daddr == inaddr_broadcast
        || in_multicast skb.iph.daddr
        || skb.iph.daddr == i.bc_addr)) [
          | inl e ↦ rw e p
          | inr e ↦ rw e (by_hook-keep h skb dev i.if_addr k p)
        ]

  pub hook-keep :
      (h : Hooknum) (skb : SkBuff) (dev : ℕ) (k : Kernel) → P k → P (kaodv_hook h skb dev k).1
  unfolding kaodv_hook
  hook-keep h skb dev k p = elim (Bool-cases (is_aodv skb)) [
    | inl e ↦ rw (e, kaodv_hook) (aodv_packet-keep h skb dev k p)
    | inr e ↦ rw (e, kaodv_hook) (on_interface-keep h skb dev (if_info_from_ifindex dev k.ifi) k p)
  ]
