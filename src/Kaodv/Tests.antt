-- ===== src/Kaodv/Tests.antt =====
-- The theorems about the kernel module at concrete states: a node 1 with a radio, two packets to node 8
-- and one to node 7 that wait, and a route to node 9.
use aodv.Base.{
  ℕ, ◌+◌, ◌≡◌, refl, true, false, none, some, is_some, pos, negsuc, if◌then◌else◌, ◌==◌, List, [],
  ◌∷◌, map, arith,
}
use aodv.Msg.{no_rreq_flags}
use aodv.Node.{State, SeekEntry, no_flags, valid}
use aodv.Routing.Table.{lookup, rt_table_check}
use aodv.Routing.Seek.{find_seek}
use aodv.Routing.Route.{new_entry, rt_table_insert}
use aodv.Protocol.Kernel.{nl_kaodv_callback}
use aodv.Protocol.Timeout.{route_discovery_timeout}
use aodv.Trace.Tests.{boot}
use aodv.Msg.{Rrep}
use aodv.Routing.Table.{find, rt_table_init}
use aodv.Trace.Tests.{cleared}
use aodv.Trace.Table.{init-IsTable}
use aodv.Protocol.Rrep.{rrep_process}
use aodv.Kaodv.Answer.{answered-sent}
use aodv.Kaodv.Proc.{kaodv_msg_type_to_str}
use aodv.Kaodv.Defs.{
  ExplFlags, SkBuff, local_out, post_routing, IfInfo, KaodvMsg, Kernel, passed_on,
}
use aodv.Kaodv.Expl.{check_expl, kaodv_expl_get, deadline}
use aodv.Kaodv.Ipenc.{encapsulated, ip_pkt_decapsulate, ip_send_check}
use aodv.Kaodv.Queue.{
  entry_of, check_entry, kaodv_queue_check, kaodv_queue_send, kaodv_queue_set_verdict,
}
use aodv.Kaodv.Peer.{
  PeerMsg, addroute, delroute, noroute_found, config, NlSkb, kaodv_netlink_receive_peer,
}
use aodv.Kaodv.Hook.{
  KernelEvent, packet, netlink, release, elapse, kaodv_hook, kernel_step, kernel_run,
  if_info_from_ifindex,
}
use aodv.Kaodv.Routes.{OneEach}
use aodv.Kaodv.Invariant.{IsSound}
use aodv.Kaodv.Load.{LoadEnv, Module, kaodv_queue_init, kaodv_netlink_init, kaodv_init, kaodv_exit}
use aodv.Kaodv.Loading.{HasRegistered, kaodv_init-registered}
use aodv.Kaodv.Loaded.{loaded-IsSound}
use aodv.Kaodv.RouteMap.{IsExact, route_map, obey_all, receive_all}
use aodv.Kaodv.Refine.{receive_all-refines}
use aodv.Kaodv.Full.{receive_all_stuck}
use aodv.Kaodv.Waiting.{waiting_for, others, dropped, released, holding, freed_all}
use aodv.Kaodv.Release.{set_verdict-released}
use aodv.Kaodv.Deliver.{receive-releases}
use aodv.Kaodv.Hold.{held-sent}
use aodv.Kaodv.Session.{strangers-change-nothing, release-clears}
use aodv.Kaodv.Roundtrip.{decapsulate-encapsulated}
use aodv.Kaodv.Daemon.{as_kernel_msg, received, held-sought, insert-agrees, given-up-dropped}

abbrev plain : ExplFlags
plain = record { gw_encap = false; repair = false }

abbrev to_node : ℕ → SkBuff
to_node d = record {
  iph = record { tos = 0; tot_len = 24; id = 5; protocol = 1; check = 0; saddr = 1; daddr = d };
  body = 8 ∷ 0 ∷ 1 ∷ 2 ∷ [];
}

abbrev radio : IfInfo
radio = record { ifindex = 2; if_addr = 1; bc_addr = 255 }

abbrev idle : Kernel
idle = record {
  expl = record { expires = 900; flags = plain; daddr = 9; nhop = 5; ifindex = 2 } ∷ [];
  expl_len = 1;
  queue =
      entry_of (to_node 8) local_out
      ∷ entry_of (to_node 7) local_out
      ∷ entry_of (to_node 8) local_out
      ∷ [];
  queue_total = 3;
  queue_maxlen = 1024;
  ifi = radio ∷ [];
  active_route_timeout = 3000;
  peer_pid = 44;
  jiffies = 500;
  allocs = 0;
  env = record {
    hz = 100;
    rt_msg_size = 24;
    conf_msg_size = 8;
    kmalloc = λ n. true;
    ip_fast_csum = λ h. h.tot_len + h.daddr;
    ip_select_ident = λ h. 77;
  };
  to_daemon = [];
  acks = [];
  fates = [];
}

idle-IsExact : IsExact idle
unfolding OneEach check_expl
idle-IsExact = ((refl, tt), refl)

abbrev messages : List PeerMsg
messages =
    addroute 8 5 3000 plain 2
    ∷ addroute 9 6 3000 plain 2
    ∷ noroute_found 7
    ∷ delroute 8
    ∷ config 5000
    ∷ []

receive_all-refines_example :
    (route_map (receive_all messages 24 idle)
      ≡ obey_all (λ t. deadline t idle) messages (route_map idle))
    × IsExact (receive_all messages 24 idle)
receive_all-refines_example =
    receive_all-refines messages 24 idle (λ n. refl) idle-IsExact (omega arith) (omega arith)

-- A message of process `pid`.
abbrev from : ℕ → PeerMsg → NlSkb
from pid m = record {
  skblen = 40;
  nlmsglen = 40;
  pid = pid;
  request = true;
  multi = false;
  trunc = false;
  ack = true;
  msg = m;
}

abbrev unloaded : Module
unloaded = record {
  kernel = record idle { expl = []; expl_len = 0; queue = []; queue_total = 0; ifi = [] };
  expl_proc = false;
  queue_proc = false;
  netlink = false;
  hooks = λ i. false;
}

-- A kernel that refuses the third hook, and one that takes everything.
abbrev refusing : LoadEnv
refusing = record {
  expl_proc = true;
  queue_proc = true;
  netlink_kernel_create = true;
  nf_register_hook = λ i. if i == 2 then negsuc 0 else pos 0;
  devices = [];
  garbage = (0, 0);
}

abbrev willing : LoadEnv
willing = record refusing {
  nf_register_hook = λ i. pos 0;
  devices =
      some (record {
        ifindex = 2;
        ifa_list = some (record { is_named = true; ifa_address = 1; ifa_broadcast = 255 } ∷ []);
      })
      ∷ [];
}

kaodv_init-registered_example :
    HasRegistered true false false 0 (kaodv_init refusing unloaded).1
    × HasRegistered false false false 0 (kaodv_exit (kaodv_init refusing unloaded).1)
unfolding kaodv_init kaodv_queue_init kaodv_netlink_init
kaodv_init-registered_example =
    kaodv_init-registered refusing unloaded refl refl (λ i. ground arith)

abbrev traffic : List KernelEvent
traffic =
    packet local_out (to_node 6) 2
    ∷ netlink (from 44 (addroute 8 5 3000 plain 2))
    ∷ elapse 100
    ∷ packet post_routing (to_node 9) 2
    ∷ release 44
    ∷ []

loaded-IsSound_example : IsSound (kernel_run traffic (kaodv_init willing unloaded).1.kernel)
loaded-IsSound_example = loaded-IsSound willing traffic unloaded refl refl (omega arith)

set_verdict-released_example :
    kaodv_queue_set_verdict kaodv_queue_send 8 idle
    ≡ let (n, k') = released kaodv_queue_send 8 (waiting_for 8 idle.queue) idle in
      (n, holding (others 8 idle.queue) k')
set_verdict-released_example = set_verdict-released kaodv_queue_send 8 idle refl (omega arith)

receive-releases_example :
    let k' = (kaodv_netlink_receive_peer (addroute 8 5 3000 plain 2) 24 idle).1 in
    (kaodv_queue_check 8 k' ≡ false)
    × (k'.queue ≡ entry_of (to_node 7) local_out ∷ [])
    × (k'.queue_total ≡ 1)
receive-releases_example =
    receive-releases (addroute 8 5 3000 plain 2) 8 24 idle refl (omega arith) (refl, omega arith)

-- The list calls itself full with no route in it.
abbrev drifted : Kernel
drifted = record idle { expl = []; expl_len = 1025 }

receive_all_stuck_example : kaodv_expl_get 8 (receive_all messages 24 drifted) ≡ none
unfolding kaodv_expl_get check_expl
receive_all_stuck_example = receive_all_stuck messages 24 8 drifted (omega arith, omega arith) refl

held-sent_example :
    let k' : Kernel = (kaodv_hook local_out (to_node 8) 2 idle).1 in
    (kaodv_netlink_receive_peer (addroute 8 5 3000 plain 2) 24 k').1.fates
    ≡ passed_on (to_node 8) local_out
      ∷ passed_on (to_node 8) local_out
      ∷ passed_on (to_node 8) local_out
      ∷ []
unfolding if_info_from_ifindex kaodv_expl_get check_expl
held-sent_example =
    held-sent (to_node 8) 2 radio idle 5 3000 plain 2 24 refl refl refl refl (λ a. refl)
      idle-IsExact (omega arith) refl (omega arith) (omega arith) (omega arith) refl

decapsulate-encapsulated_example :
    ip_pkt_decapsulate idle (encapsulated idle (to_node 8) 5) ≡ record {
      iph =
          ip_send_check idle
            (record ((to_node 8).iph) { id = (encapsulated idle (to_node 8) 5).iph.id });
      body = 8 ∷ 0 ∷ 1 ∷ 2 ∷ [];
    }
decapsulate-encapsulated_example =
    decapsulate-encapsulated idle (to_node 8) 5 (omega arith) (omega arith) (omega arith)

abbrev strangers : List NlSkb
strangers = from 45 (delroute 9) ∷ from 46 (config 1) ∷ []

strangers-change-nothing_example :
    kernel_run (map netlink strangers) idle
    ≡ record idle { acks = (kernel_run (map netlink strangers) idle).acks }
strangers-change-nothing_example = strangers-change-nothing strangers idle refl (refl, (refl, tt))

release-clears_example : kernel_step (release 44) idle ≡ record idle {
  peer_pid = 0;
  expl = [];
  expl_len = 0;
  queue = [];
  queue_total = 0;
  fates = freed_all idle.queue [];
}
release-clears_example = release-clears 44 idle refl (omega arith) (omega arith) (omega arith)

held-sought_example :
    (m : KaodvMsg) × ((kaodv_hook local_out (to_node 6) 2 idle).1.to_daemon ≡ m ∷ [])
    × (is_some (find_seek 6 (nl_kaodv_callback (as_kernel_msg m) boot).1.sl) ≡ true)
unfolding if_info_from_ifindex kaodv_expl_get check_expl kaodv_queue_check check_entry
held-sought_example =
    held-sought (to_node 6) 2 radio idle boot refl refl refl refl refl (λ a. refl) (omega arith)

insert-agrees_example :
    let s' : State = (rt_table_insert 8 5 2 3 6000 valid no_flags boot).1 in
    (lookup 8 s'.rt_tbl ≡ some (new_entry 8 5 2 3 valid no_flags))
    × (kaodv_expl_get 8 (received 24 s'.nl_sent idle)
        ≡ some (record { expires = 1100; flags = plain; daddr = 8; nhop = 5; ifindex = 2 }))
unfolding lookup
insert-agrees_example =
    insert-agrees 8 5 2 3 6000 no_flags boot 24 idle refl (λ x a. refl) refl (λ a. refl)
      idle-IsExact (omega arith) (omega arith)

-- A discovery for node 8 that has sent its last RREQ.
abbrev last_try : SeekEntry
last_try = record { dest_addr = 8; dest_seqno = 0; flags = no_rreq_flags; rreq_cnt = 2; ttl = 35 }

abbrev seeking : State
seeking = record boot { sl = last_try ∷ [] }

given-up-dropped_example :
    let k' : Kernel = received 24 (route_discovery_timeout 8 seeking).1.nl_sent idle in
    (kaodv_queue_check 8 k' ≡ false) × (k'.fates ≡ dropped (waiting_for 8 idle.queue) [])
unfolding find_seek rt_table_check
given-up-dropped_example =
    given-up-dropped 8 last_try seeking 24 idle refl refl refl (λ x a. refl) refl
      (refl, omega arith) (omega arith)

-- The names of message types: one that is known, one beyond, and 0, for which there is no text.
type_names :
    (kaodv_msg_type_to_str 104 ≡ some "Route Request")
    × (kaodv_msg_type_to_str 111 ≡ some "Unknown message type")
    × (kaodv_msg_type_to_str 0 ≡ none)
unfolding kaodv_msg_type_to_str
type_names = (refl, refl, refl)

-- The RREP of node 8 to node 1, by the neighbor 5.
abbrev reply : Rrep
reply = record {
  r = false;
  a = false;
  prefix = 0;
  hopcnt = 1;
  dest_addr = 8;
  dest_seqno = 3;
  orig_addr = 1;
  lifetime = 6000;
}

answered-sent_example :
    let k' : Kernel = (kaodv_hook local_out (to_node 8) 2 idle).1 in
    (received 24 (rrep_process reply 20 5 3 cleared).1.nl_sent k').fates
    ≡ passed_on (to_node 8) local_out
      ∷ passed_on (to_node 8) local_out
      ∷ passed_on (to_node 8) local_out
      ∷ []
unfolding if_info_from_ifindex kaodv_expl_get check_expl lookup find rt_table_init
answered-sent_example =
    answered-sent (to_node 8) 2 radio idle reply 20 5 3 cleared 24 refl (init-IsTable boot)
      (omega arith) (omega arith) refl refl refl (λ x a. refl) refl refl refl refl refl (λ a. refl)
      idle-IsExact (omega arith) refl (omega arith) (omega arith) (omega arith)
