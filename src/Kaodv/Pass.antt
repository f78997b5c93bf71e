-- ===== src/Kaodv/Pass.antt =====
-- An ADDROUTE passes on the packets that wait for the new route.
use aodv.Base.{
  ℕ, ◌+◌, ◌≤◌, ◌<◌, ◌≡◌, refl, sym, ◌∙◌, ap, true, false, Option, some, List, [], ◌∷◌, ◌++◌, length,
  arith,
}
use aodv.Kaodv.Defs.{ExplFlags, ExplEntry, QueueEntry, Kernel, Fate, log_fate, passed_on}
use aodv.Kaodv.Expl.{check_expl, unlink_expl, kaodv_expl_get}
use aodv.Kaodv.Queue.{send_by, send_entry, kaodv_queue_send}
use aodv.Kaodv.Peer.{addroute, add_route, kaodv_netlink_receive_peer}
use aodv.Kaodv.Routes.{check-insert}
use aodv.Kaodv.RouteMap.{IsExact, Core}
use aodv.Kaodv.Refine.{fresh, routed-core, unlink_free}
use aodv.Kaodv.Waiting.{waiting_for, send_each}
use aodv.Kaodv.Release.{set_verdict-released}
use aodv.Kaodv.Deliver.{IsQueueCounted, Waits, waits, routed, routed-waits, long}

-- The log when each packet is passed on as it came.
abbrev pub passed_all : List QueueEntry → List Fate → List Fate
passed_all [] f = f
passed_all (e ∷ l) f = passed_all l (passed_on e.skb e.okfn ∷ f)

pub passed_all-append :
    (l : List QueueEntry) (e : QueueEntry) (f : List Fate)
    → passed_all (l ++ e ∷ []) f ≡ passed_on e.skb e.okfn ∷ passed_all l f
passed_all-append [] e f = refl
passed_all-append (c ∷ l) e f = passed_all-append l e (passed_on c.skb c.okfn ∷ f)

pub waiting-append :
    (d : ℕ) (l : List QueueEntry) (e : QueueEntry)
    → e.rt_info.daddr ≡ d
    → waiting_for d (l ++ e ∷ []) ≡ waiting_for d l ++ e ∷ []
waiting-append d [] e h = ground (arith, h)
waiting-append d (c ∷ l) e h = ground (arith, h, waiting-append d l e h)

send_entry-plain :
    (d : ℕ) (r : ExplEntry) (e : QueueEntry) (k : Kernel)
    → kaodv_expl_get d k ≡ some r
    → r.flags.gw_encap ≡ false
    → send_entry d e k ≡ (1, log_fate (passed_on e.skb e.okfn) k)
unfolding send_entry
send_entry-plain d r e k h g = ap (λ (o : Option ExplEntry). send_by e o k) h ∙ rw g refl

send_each-fates :
    (d : ℕ) (r : ExplEntry) (l : List QueueEntry) (p : ℕ) (k : Kernel)
    → kaodv_expl_get d k ≡ some r
    → r.flags.gw_encap ≡ false
    → (send_each d l p k).1.fates ≡ passed_all l k.fates
unfolding kaodv_expl_get
send_each-fates d r [] p k h g = refl
send_each-fates d r (e ∷ l) p k h g =
    rw (send_entry-plain d r e k h g, send_each)
      (send_each-fates d r l (p + 1) (log_fate (passed_on e.skb e.okfn) k) h g)

module _ (d n t : ℕ) (fl : ExplFlags) (i : ℕ) (k : Kernel)
    (memory : (a : ℕ) → k.env.kmalloc a ≡ true) (x : IsExact k) (b : length k.expl < 1025) where
  abbrev new_route : ExplEntry
  new_route = fresh k memory x b d n t fl i

  routed-get : kaodv_expl_get d (routed d n t fl i k) ≡ some new_route
  unfolding kaodv_expl_get
  routed-get =
      ap (λ (c : Core). check_expl d c.0) (routed-core k memory x b d n t fl i)
      ∙ check-insert new_route d (unlink_expl d k.expl) (unlink_free k memory x b d)
      ∙ ground arith

  -- The packets that wait for the new route are passed on as they came, the first one first.
  pub addroute-passes :
      (len : ℕ)
      → k.env.rt_msg_size ≤ len
      → IsQueueCounted k
      → fl.gw_encap ≡ false
      → (kaodv_netlink_receive_peer (addroute d n t fl i) len k).1.fates
        ≡ passed_all (waiting_for d k.queue) k.fates
  unfolding kaodv_netlink_receive_peer add_route
  addroute-passes len h q g =
      let k' : Kernel = routed d n t fl i k in
      let w : waits k' ≡ waits k = routed-waits d n t fl i k in
      let same : k'.queue ≡ k.queue = ap (λ (u : Waits). u.0) w in
      rw (long k len h) (
        ap (λ (r : ℕ × Kernel). r.1.fates)
          (set_verdict-released kaodv_queue_send d k'
            (ap (λ (u : Waits). u.1) w ∙ q.0 ∙ ap length (sym same)) (rw same q.1))
        ∙ send_each-fates d new_route (waiting_for d k'.queue) 0 k' routed-get g
        ∙ ap (λ (u : Waits). passed_all (waiting_for d u.0) u.2) w)
