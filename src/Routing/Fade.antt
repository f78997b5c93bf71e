-- ===== src/Routing/Fade.antt =====
-- What a routing table only loses: entries stay, by the same way, and no invalid route becomes valid.
pub mod Runs
use aodv.Base.{
  ℕ, ◌≡◌, refl, sym, subst, ap, ◌∙◌, Bool, true, false, Option, none, some, List, [], ◌∷◌, map,
  arith, ◌==◌, if◌then◌else◌, ℤ, Bool-cases, inl, inr, All,
}
use aodv.Timer.{Timers, TimerRef}
use aodv.Msg.{Msg}
use aodv.Node.{
  State, ⊤, M, pure, skip, get, gets, modify, ◌>>=◌, gettimeofday, on_timers, set_timeout, RtEntry,
  RoutingTable, is_valid, dec_u32,
}
use aodv.Netlink.{nl_send_del_route_msg}
use aodv.Socket.{aodv_socket_send}
use aodv.Socket.Frame.{send-rt_tbl}
use aodv.Routing.Table.{
  find, hashing, lookup, on_table, write_rt, write_bucket, write_table, bucket_keys,
}
use aodv.Routing.Store.{map_entry, lookup-write_table}
use aodv.Routing.Contract.{del_route-rt_tbl}

-- `f` is what has become of the entry `e`.
pub record Fainter (e f : RtEntry) : Type 0 where
  pub same_dest : f.dest_addr ≡ e.dest_addr
  pub same_hop : f.next_hop ≡ e.next_hop
  pub stays_invalid : is_valid e.state ≡ false → is_valid f.state ≡ false

-- What became of an entry that is there or not.
pub data Faded : Option RtEntry → Option RtEntry → Type 0 where
  absent : Faded none none
  present : (e f : RtEntry) → Fainter e f → Faded (some e) (some f)

-- `u` is what has become of the table `t`.
pub record Fades (t u : RoutingTable) : Type 0 where
  pub keys : (i : ℕ) → bucket_keys i u ≡ bucket_keys i t
  pub entries : (k : ℕ) → Faded (lookup k t) (lookup k u)

Fainter-refl : (e : RtEntry) → Fainter e e
Fainter-refl e = record { same_dest = refl; same_hop = refl; stays_invalid = λ h. h }

Faded-refl : (o : Option RtEntry) → Faded o o
Faded-refl none = absent
Faded-refl (some e) = present e e (Fainter-refl e)

Faded-trans : {o p q : Option RtEntry} → Faded o p → Faded p q → Faded o q
Faded-trans absent b = b
Faded-trans (present e f x) (present _ g y) = present e g (record {
  same_dest = y.same_dest ∙ x.same_dest;
  same_hop = y.same_hop ∙ x.same_hop;
  stays_invalid = λ h. y.stays_invalid (x.stays_invalid h);
})

pub Fades-refl : (t : RoutingTable) → Fades t t
Fades-refl t = record { keys = λ i. refl; entries = λ k. Faded-refl (lookup k t) }

pub Fades-trans : {t u w : RoutingTable} → Fades t u → Fades u w → Fades t w
Fades-trans a b = record {
  keys = λ i. b.keys i ∙ a.keys i;
  entries = λ k. Faded-trans (a.entries k) (b.entries k);
}

map_entry-Faded :
    (f : RtEntry → RtEntry) (o : Option RtEntry)
    → ((e : RtEntry) → Fainter e (f e))
    → Faded o (map_entry f o)
map_entry-Faded f none h = absent
map_entry-Faded f (some e) h = present e (f e) (h e)

module _ (d : ℕ) (f : RtEntry → RtEntry) (h : (e : RtEntry) → Fainter e (f e)) where
  write_bucket-keys :
      (l : List RtEntry)
      → map (λ (e : RtEntry). e.dest_addr) (write_bucket d f l)
        ≡ map (λ (e : RtEntry). e.dest_addr) l
  unfolding write_bucket
  write_bucket-keys [] = refl
  write_bucket-keys (e ∷ l) = ground (arith, (h e).same_dest, write_bucket-keys l)

  write_table-Fades : (t : RoutingTable) → Fades t (write_table d f t)
  unfolding write_table
  write_table-Fades t = record {
    keys = λ i. ground (arith, write_bucket-keys (t.tbl i));
    entries = λ k.
        subst (λ o. Faded (lookup k t) o) (sym (lookup-write_table d f (λ e. (h e).same_dest) k t))
          (if-Faded (d == k) k);
  }
    where
      if-Faded :
          (c : Bool) (k : ℕ)
          → Faded (lookup k t) (if c then map_entry f (lookup k t) else lookup k t)
      if-Faded true k = map_entry-Faded f (lookup k t) h
      if-Faded false k = Faded-refl (lookup k t)
