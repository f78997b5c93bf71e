-- ===== src/Kaodv/Answer.antt =====
-- A RREP at the node that asked for a route, and the packet that waits there.
use aodv.Base.{ℕ, ◌+◌, ◌≤◌, ◌<◌, ◌≡◌, ◌≢◌, refl, ◌∙◌, ap, true, false, none, some, [], ◌∷◌, length}
use aodv.Msg.{Rrep, rrep_size}
use aodv.Node.{State, NlMsg, no_flags}
use aodv.Routing.Table.{lookup}
use aodv.Routing.Store.{IsTable}
use aodv.Protocol.Rrep.{rrep_process}
use aodv.Protocol.Reply.{rrep_process-inserts}
use aodv.Kaodv.Defs.{SkBuff, local_out, IfInfo, Kernel, passed_on}
use aodv.Kaodv.Expl.{kaodv_expl_get}
use aodv.Kaodv.Hook.{is_aodv, if_info_from_ifindex, kaodv_hook}
use aodv.Kaodv.RouteMap.{IsExact}
use aodv.Kaodv.Waiting.{waiting_for}
use aodv.Kaodv.Pass.{passed_all}
use aodv.Kaodv.Hold.{to_many, held-sent}
use aodv.Kaodv.Daemon.{received, new_route_msgs, insert-nl_sent}

-- The messages of the daemon when the RREP has come.
answer-nl_sent :
    (m : Rrep) (len src ttl : ℕ) (s : State)
    → IsTable s.rt_tbl
    → rrep_size ≤ len
    → m.dest_addr ≢ s.this_host.ipaddr
    → m.orig_addr ≡ s.this_host.ipaddr
    → m.a ≡ false
    → lookup m.dest_addr s.rt_tbl ≡ none
    → ((x : NlMsg) (a : ℕ) → s.env.sendmsg x a ≡ true)
    → (rrep_process m len src ttl s).1.nl_sent
      ≡ new_route_msgs m.dest_addr src
          (m.hopcnt + 1)
          m.lifetime
          no_flags
          s.this_host.ifindex
          s.nl_sent
answer-nl_sent m len src ttl s v l other ours no_ack p ok =
    ap (λ (t : State). t.nl_sent) (rrep_process-inserts m len src ttl s v l other ours no_ack p)
    ∙ insert-nl_sent m.dest_addr src (m.hopcnt + 1) m.dest_seqno m.lifetime no_flags s p ok

-- The answer sets the packet free: a packet of this node was held by NF_INET_LOCAL_OUT for want of a
-- route, and the daemon reads a RREP about its destination that is meant for this node. Then the module, once it
-- has received what the daemon sent, has passed the packet on as it came, after all those that waited for the same
-- destination before it. It is so when the daemon's table is in order and has no entry for the destination, the RREP is
-- long enough, asks for no acknowledgement and is not about this node, sendmsg takes every message and the daemon has
-- sent none before; and for a packet that is not AODV's, to one host, on an interface of the module, when every
-- allocation succeeds, no destination has two routes, `expl_len` counts them and is below 1025, `queue_total` is the
-- length of the queue and below `queue_maxlen`, which is below 2^32, and the messages are long enough.
pub answered-sent :
    (skb : SkBuff) (dev : ℕ) (i : IfInfo) (k : Kernel) (m : Rrep) (len src ttl : ℕ) (s : State)
    (size : ℕ)
    → m.dest_addr ≡ skb.iph.daddr
    → IsTable s.rt_tbl
    → rrep_size ≤ len
    → m.dest_addr ≢ s.this_host.ipaddr
    → m.orig_addr ≡ s.this_host.ipaddr
    → m.a ≡ false
    → lookup m.dest_addr s.rt_tbl ≡ none
    → ((x : NlMsg) (a : ℕ) → s.env.sendmsg x a ≡ true)
    → s.nl_sent ≡ []
    → is_aodv skb ≡ false
    → if_info_from_ifindex dev k.ifi ≡ some i
    → to_many skb i ≡ false
    → kaodv_expl_get skb.iph.daddr k ≡ none
    → ((a : ℕ) → k.env.kmalloc a ≡ true)
    → IsExact k
    → length k.expl < 1025
    → k.queue_total ≡ length k.queue
    → k.queue_total < k.queue_maxlen
    → k.queue_maxlen < 4294967296
    → k.env.rt_msg_size ≤ size
    → let k' : Kernel = (kaodv_hook local_out skb dev k).1 in
      (received size (rrep_process m len src ttl s).1.nl_sent k').fates
      ≡ passed_on skb local_out ∷ passed_all (waiting_for skb.iph.daddr k.queue) k.fates
answered-sent skb dev i k m len src ttl s size same v l other ours no_ack p ok start a f u g memory
      x b q room most h =
    rw (answer-nl_sent m len src ttl s v l other ours no_ack p ok, start, same)
      (held-sent skb dev i k src m.lifetime (record { gw_encap = false; repair = false })
        s.this_host.ifindex size a f u g memory x b q room most h refl)
