-- ===== src/Kaodv/Defs.antt =====
-- The data of the kernel module, kaodv/src: the state of its files, and what it asks of the kernel.
use aodv.Base.{ℕ, ◌+◌, Bool, List, ◌∷◌, ℤ}

-- The bits KAODV_RT_GW_ENCAP and KAODV_RT_REPAIR of a route's flags; no other bit is read.
pub record ExplFlags : Type 0 where
  pub gw_encap : Bool
  pub repair : Bool

-- struct expl_entry, with `expires` in jiffies.
pub record ExplEntry : Type 0 where
  pub expires : ℕ
  pub flags : ExplFlags
  pub daddr : ℕ
  pub nhop : ℕ
  pub ifindex : ℕ

-- struct iphdr, with its numbers as the host reads them.
pub record Iphdr : Type 0 where
  pub tos : ℕ
  pub tot_len : ℕ
  pub id : ℕ
  pub protocol : ℕ
  pub check : ℕ
  pub saddr : ℕ
  pub daddr : ℕ

-- struct sk_buff: the IP header and the bytes behind it.
pub record SkBuff : Type 0 where
  pub iph : Iphdr
  pub body : List ℕ

-- NF_INET_PRE_ROUTING, NF_INET_LOCAL_OUT and NF_INET_POST_ROUTING, where `kaodv_ops` hooks in. The
-- hook also names the `okfn` by which a packet goes on.
pub data Hooknum : Type 0 where
  pre_routing local_out post_routing : Hooknum

-- struct kaodv_rt_info
pub record RtInfo : Type 0 where
  pub tos : ℕ
  pub daddr : ℕ
  pub saddr : ℕ

-- struct kaodv_queue_entry
pub record QueueEntry : Type 0 where
  pub skb : SkBuff
  pub okfn : Hooknum
  pub rt_info : RtInfo

-- struct if_info, with the index of its device.
pub record IfInfo : Type 0 where
  pub ifindex : ℕ
  pub if_addr : ℕ
  pub bc_addr : ℕ

-- PKT_INBOUND and PKT_OUTBOUND
pub data Direction : Type 0 where
  pkt_inbound pkt_outbound : Direction

-- The types that kaodv_netlink_send_rt_msg is called with.
pub data RtMsgType : Type 0 where
  kaodvm_timeout kaodvm_route_req kaodvm_repair : RtMsgType

-- The messages to the daemon, in the order of their fields in kaodv_rt_msg.
pub data KaodvMsg : Type 0 where
  rt_msg : RtMsgType → (src dest : ℕ) → KaodvMsg
  debug : (text : List ℕ) → KaodvMsg
  route_update rerr : Direction → (src dest ifindex : ℕ) → KaodvMsg

-- What becomes of a packet that the module has taken: kfree_skb, a call of `okfn` after
-- ip_route_me_harder, and icmp_send of ICMP_HOST_UNREACH about it.
pub data Fate : Type 0 where
  freed : SkBuff → Fate
  passed_on : SkBuff → Hooknum → Fate
  icmp_unreachable : SkBuff → Fate

-- The kernel that the module is built for and runs in: HZ, the sizes of the messages, whether the n-th
-- allocation succeeds, the header's checksum and the identification that ip_select_ident gives.
pub record KernelEnv : Type 0 where
  pub hz : ℕ
  pub rt_msg_size : ℕ
  pub conf_msg_size : ℕ
  pub kmalloc : ℕ → Bool
  pub ip_fast_csum : Iphdr → ℕ
  pub ip_select_ident : Iphdr → ℕ

-- `queue` is queue_list from its tail on, the order in which list_for_each_prev walks. The logs have the
-- latest first: what went to the daemon, the acknowledgements, the fates of packets.
pub record Kernel : Type 0 where
  pub expl : List ExplEntry
  pub expl_len : ℕ
  pub queue : List QueueEntry
  pub queue_total : ℕ
  pub queue_maxlen : ℕ
  pub ifi : List IfInfo
  pub active_route_timeout : ℕ
  pub peer_pid : ℕ
  pub jiffies : ℕ
  pub allocs : ℕ
  pub env : KernelEnv
  pub to_daemon : List KaodvMsg
  pub acks : List ℤ
  pub fates : List Fate

-- kmalloc, skb_copy_expand or nlmsg_new: whether it succeeds.
unfoldable pub kmalloc : Kernel → Bool × Kernel
kmalloc k = (k.env.kmalloc k.allocs, record k { allocs = k.allocs + 1 })

abbrev pub log_fate : Fate → Kernel → Kernel
log_fate f k = record k { fates = f ∷ k.fates }
