-- ===== src/Kaodv/Refine.antt =====
-- The routes of the module as a finite map that the daemon's messages write.
use aodv.Base.{
  ℕ, ◌+◌, ◌≤◌, ◌<◌, ◌≡◌, refl, sym, ◌∙◌, ap, ap₂, true, false, none, is_some, List, [], ◌∷◌, length,
  ltb, ◌*◌, ◌/◌, fun_ext, if◌then◌else◌, if-keep, subst, arith, Option-cases, inl, inr, ℤ,
}
use aodv.Kaodv.Defs.{ExplFlags, ExplEntry, Kernel, KernelEnv, kmalloc}
use aodv.Kaodv.Expl.{
  expl_max_len, deadline, check_expl, insert_expl, unlink_expl, link_expl, add_expl, kaodv_expl_get,
  kaodv_expl_add, kaodv_expl_update, kaodv_expl_del,
}
use aodv.Kaodv.Queue.{kaodv_queue_send, kaodv_queue_drop}
use aodv.Kaodv.Peer.{
  PeerMsg, addroute, delroute, noroute_found, config, unknown, add_route,
  kaodv_netlink_receive_peer,
}
use aodv.Kaodv.Routes.{
  OneEach, check-insert, check-unlink, insert-OneEach, unlink-OneEach, check-daddr,
}
use aodv.Kaodv.RouteMap.{
  RouteMap, route_map, obey, obey_all, receive_all, IsExact, Core, core, verdict-core, unlink-none,
  length-insert, length-unlink,
}

module _ (k : Kernel) (memory : (n : ℕ) → k.env.kmalloc n ≡ true) (x : IsExact k)
    (b : length k.expl < 1025) where
  abbrev pub fresh : ℕ → ℕ → ℕ → ExplFlags → ℕ → ExplEntry
  fresh d n t fl i = record { expires = deadline t k; flags = fl; daddr = d; nhop = n; ifindex = i }

  abbrev pub with_route : ExplEntry → List ExplEntry
  with_route e = insert_expl e (unlink_expl e.daddr k.expl)

  -- A message ADDROUTE puts one route in the place of the one that was there.
  pub routed-core :
      (d n t : ℕ) (fl : ExplFlags) (i : ℕ)
      → core
          (if is_some (kaodv_expl_get d k)
            then kaodv_expl_update d n t fl i k
            else kaodv_expl_add d n t fl i k).1
        ≡ (with_route (fresh d n t fl i), length (with_route (fresh d n t fl i)), k.jiffies, k.env)
  unfolding kaodv_expl_get kaodv_expl_update kaodv_expl_add add_expl link_expl kmalloc
  routed-core d n t fl i = elim (Option-cases (check_expl d k.expl)) [
    | inl h ↦
        let e : ExplEntry = fresh d n t fl i in
        rw (h, memory k.allocs, room)
          (ap₂ (λ (l : List ExplEntry) (m : ℕ). (l, m, k.jiffies, k.env))
            (ap (insert_expl e) (sym (unlink-none d k.expl h)))
            (omega (
              arith,
              x.1,
              b,
              length-insert e (unlink_expl d k.expl),
              ap length (unlink-none d k.expl h),
            )))
    | inr (e, h) ↦
        rw (h, kaodv_expl_update, room)
          (ap₂
            (λ (a m : ℕ). (
              insert_expl (record (fresh d n t fl i) { daddr = a }) (unlink_expl d k.expl),
              m,
              k.jiffies,
              k.env,
            ))
            (check-daddr d e k.expl h)
            (omega (
              arith,
              x.1,
              length-unlink d e k.expl h,
              length-insert (fresh d n t fl i) (unlink_expl d k.expl),
            )))
  ]
    where
      room : ltb expl_max_len k.expl_len ≡ false
      room = ground (arith, x.1, b)

  add_route-core :
      (d n t : ℕ) (fl : ExplFlags) (i : ℕ)
      → core (add_route d n t fl i k).1
        ≡ (with_route (fresh d n t fl i), length (with_route (fresh d n t fl i)), k.jiffies, k.env)
  unfolding add_route
  add_route-core d n t fl i = verdict-core kaodv_queue_send d _ ∙ routed-core d n t fl i

  del-core :
      (d : ℕ)
      → core (kaodv_expl_del d k).1
        ≡ (unlink_expl d k.expl, length (unlink_expl d k.expl), k.jiffies, k.env)
  unfolding kaodv_expl_del
  del-core d = elim (Option-cases (check_expl d k.expl)) [
    | inl h ↦
        rw (h, kaodv_expl_del, unlink-none d k.expl h)
          (ap (λ (m : ℕ). (k.expl, m, k.jiffies, k.env)) x.1)
    | inr (e, h) ↦
        rw (h, kaodv_expl_del)
          (ap (λ (m : ℕ). (unlink_expl d k.expl, m, k.jiffies, k.env))
            (omega (arith, x.1, b, length-unlink d e k.expl h)))
  ]

  -- What `c` keeps of the state's routes after the message `m`.
  abbrev pub HasObeyed : PeerMsg → Core → Type 0
  HasObeyed m c =
      ((d : ℕ) → check_expl d c.0 ≡ obey (λ t. deadline t k) m (route_map k) d)
      × OneEach c.0
      × (c.1 ≡ length c.0)
      × (length c.0 ≤ length k.expl + 1)
      × (c.2 ≡ k.jiffies)
      × (c.3 ≡ k.env)

  same-HasObeyed :
      (m : PeerMsg)
      → ((d : ℕ) → kaodv_expl_get d k ≡ obey (λ t. deadline t k) m (route_map k) d)
      → HasObeyed m (core k)
  unfolding kaodv_expl_get
  same-HasObeyed m h = (h, x.0, x.1, omega arith, refl, refl)

  length-unlink_le : (d : ℕ) → length (unlink_expl d k.expl) ≤ length k.expl
  length-unlink_le d = elim (Option-cases (check_expl d k.expl)) [
    | inl h ↦ rw (unlink-none d k.expl h) (omega arith)
    | inr (e, h) ↦ omega (arith, length-unlink d e k.expl h)
  ]

  pub unlink_free : (d : ℕ) → check_expl d (unlink_expl d k.expl) ≡ none
  unlink_free d = ground (arith, check-unlink d d k.expl x.0)

  long : (len : ℕ) → k.env.rt_msg_size ≤ len → ltb len k.env.rt_msg_size ≡ false
  long len h = ground (arith, h)

  pub receive-HasObeyed :
      (m : PeerMsg) (len : ℕ)
      → k.env.rt_msg_size ≤ len
      → HasObeyed m (core (kaodv_netlink_receive_peer m len k).1)
  unfolding kaodv_netlink_receive_peer kaodv_expl_get
  receive-HasObeyed (addroute d n t fl i) len h =
      let e : ExplEntry = fresh d n t fl i in
      let l : List ExplEntry = unlink_expl d k.expl in
      rw (long len h) (
        subst (HasObeyed (addroute d n t fl i)) (sym (add_route-core d n t fl i)) (
          (λ x'.
              check-insert e x' l (unlink_free d) ∙ ground (arith, check-unlink d x' k.expl x.0)),
          insert-OneEach e l (unlink_free d) (unlink-OneEach d k.expl x.0),
          refl,
          omega (arith, length-insert e l, length-unlink_le d),
          refl,
          refl,
        ))
  receive-HasObeyed (delroute d) len h = rw (long len h) (
      subst (HasObeyed (delroute d))
        (sym (verdict-core kaodv_queue_drop d (kaodv_expl_del d k).1 ∙ del-core d))
        (
          (λ x'. check-unlink d x' k.expl x.0),
          unlink-OneEach d k.expl x.0,
          refl,
          omega (arith, length-unlink_le d),
          refl,
          refl,
        ))
  receive-HasObeyed (noroute_found d) len h = rw (long len h) (
      subst (HasObeyed (noroute_found d)) (sym (verdict-core kaodv_queue_drop d k))
        (same-HasObeyed (noroute_found d) (λ d'. refl)))
  receive-HasObeyed (config t) len h =
      let same : HasObeyed (config t) (core k) = same-HasObeyed (config t) (λ d. refl) in
      if-keep (λ (r : ℤ × Kernel). HasObeyed (config t) (core r.1)) (ltb len k.env.conf_msg_size)
        same same
  receive-HasObeyed unknown len h = same-HasObeyed unknown (λ d. refl)

-- The module refines the finite map: after messages of the daemon that are long enough, kaodv_expl_get
-- finds for each destination the route of the last ADDROUTE about it, with the deadline that its time
-- gives, and none after a DELROUTE; NOROUTE_FOUND, CONFIG and unknown messages leave the routes as they
-- are. No destination has two routes and `expl_len` counts them, before and after. It is so when
-- every allocation succeeds and the routes at first with a new one for each message are at most 1025.
pub receive_all-refines :
    (l : List PeerMsg) (len : ℕ) (k : Kernel)
    → ((n : ℕ) → k.env.kmalloc n ≡ true)
    → IsExact k
    → length k.expl + length l ≤ 1025
    → k.env.rt_msg_size ≤ len
    → (route_map (receive_all l len k) ≡ obey_all (λ t. deadline t k) l (route_map k))
      × IsExact (receive_all l len k)
unfolding kaodv_expl_get check_expl
receive_all-refines [] len k memory x b h = (refl, x)
receive_all-refines (m ∷ l) len k memory x b h =
    let k' : Kernel = (kaodv_netlink_receive_peer m len k).1 in
    let (g, o, c, n, j, v) = receive-HasObeyed k memory x (omega (arith, b)) m len h in
    let (r, x') =
      receive_all-refines l len k' (rw v memory) (o, c) (omega (arith, b, n)) (rw v h) in
    (
      r
          ∙ ap₂ (λ (e : ℕ → ℕ) (f : RouteMap). obey_all e l f)
              (fun_ext (λ t. ap₂ (λ (a : ℕ) (w : KernelEnv). a + (t * w.hz) / 1000) j v))
              (fun_ext g),
      x',
    )
