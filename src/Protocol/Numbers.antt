-- ===== src/Protocol/Numbers.antt =====
-- The sequence numbers and lifetimes that the handlers compute.
use aodv.Base.{ℕ, ◌-◌, ◌*◌, ◌<◌, ◌≡◌, refl, arith, leb, if◌then◌else◌}
use aodv.Routing.Route.{seqno_incr}
use aodv.Msg.{RreqFlags, rreq}
use aodv.Node.{State, inc_u32}
use aodv.Socket.{aodv_socket_new_msg, aodv_socket_queue_msg}
use aodv.Protocol.Rreq.{rreq_create, reverse_life}

-- The lifetime of a reverse route, for a hop count of 8 bits: 80 ms less than 5600 ms for each hop up
-- to 70 hops; from 71 hops on the subtraction wraps around to more than 49 days.
reverse_life-wraps :
    (h : ℕ) → h < 257 → reverse_life h ≡ (if leb h 70 then 5600 - 80 * h else 4294972896 - 80 * h)
reverse_life-wraps h lt = ground arith

-- A daemon whose own sequence number is 0, which is what it starts with, puts 0 into each RREQ that it
-- creates, and keeps 0: the macro seqno_incr leaves 0 alone. Only the request's identifier goes up.
rreq_create_zero :
    (f : RreqFlags) (d q o : ℕ) (s : State)
    → s.this_host.seqno ≡ 0
    → let s' = (rreq_create f d q o s).1 in
      (s'.this_host.seqno ≡ 0)
      × (s'.this_host.rreq_id ≡ inc_u32 s.this_host.rreq_id)
      × (s'.send_buf
          ≡ rreq (record {
            flags = f;
            hopcnt = 0;
            rreq_id = s.this_host.rreq_id;
            dest_addr = d;
            dest_seqno = q;
            orig_addr = o;
            orig_seqno = 0;
          }))
unfolding rreq_create aodv_socket_new_msg aodv_socket_queue_msg seqno_incr
rreq_create_zero f d q o s z = (ground (arith, z), refl, ground (arith, z))
