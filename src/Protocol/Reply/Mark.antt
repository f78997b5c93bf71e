-- ===== src/Protocol/Reply/Mark.antt =====
-- aodv_rrep.c: what the steps of rrep_forward change, and what they leave alone.
use aodv.Base.{
  ℕ, ◌≡◌, refl, ap, ap₂, ◌∙◌, Bool, true, false, not, Option, none, some, [], ◌∷◌, ◌==◌,
  if◌then◌else◌, arith,
}
use aodv.Timer.{ack_timer}
use aodv.Msg.{Rrep}
use aodv.Node.{State, gettimeofday, RtEntry, RoutingTable}
use aodv.Routing.Table.{lookup, entry_at}
use aodv.Routing.Store.{map_entry, lookup-write_table}
use aodv.Routing.Frame.{rest_of}
use aodv.Routing.Route.{add_precursor, precursor_add, rt_table_update_timeout}
use aodv.Protocol.Rrep.{mark_neighbor, add_precursors}

-- Whether the RREP asks its next receiver for an acknowledgement: when that neighbor has an entry, and none
-- is awaited from it.
abbrev pub asks : Option ℕ → State → Bool
asks none s = false
asks (some n) s = not (s.timer.timers (ack_timer n)).used

abbrev pub marked : Option ℕ → Rrep → State → Rrep
marked o m s = record m { a = if asks o s then true else m.a }

-- What marking the neighbor leaves alone.
module _ (m : Rrep) (s : State) where
  pub mark-result : (o : Option ℕ) → (mark_neighbor o m s).0 ≡ marked o m s
  unfolding gettimeofday
  mark-result none = refl
  mark-result (some n) = ground arith

  pub mark-rest : (o : Option ℕ) → rest_of (mark_neighbor o m s).1 ≡ rest_of s
  unfolding gettimeofday
  mark-rest none = refl
  mark-rest (some n) = ground arith

  pub mark-hopcnt :
      (o : Option ℕ) (k : ℕ) (e : RtEntry)
      → lookup k s.rt_tbl ≡ some e
      → (entry_at k (mark_neighbor o m s).1).hopcnt ≡ e.hopcnt
  unfolding gettimeofday entry_at
  mark-hopcnt none k e h = rw h refl
  mark-hopcnt (some n) k e h = ground (
    arith,
    h,
    lookup-write_table n (λ x. record x { flags = record (x.flags) { unidir = true } }) (λ x. refl)
        k s.rt_tbl,
  )

pub precursors-sent : (a b : ℕ) (s : State) → (add_precursors a b s).1.sent ≡ s.sent
unfolding precursor_add
precursors-sent a b s = refl

pub timeout-sent : (d l : ℕ) (s : State) → (rt_table_update_timeout d l s).1.sent ≡ s.sent
unfolding rt_table_update_timeout gettimeofday
timeout-sent d l s = ground arith

pub entry-found : (k : ℕ) (s : State) (e : RtEntry) → lookup k s.rt_tbl ≡ some e → entry_at k s ≡ e
unfolding entry_at
entry-found k s e h = rw h refl

add_keeps_dest : (a : ℕ) (e : RtEntry) → (add_precursor a e).dest_addr ≡ e.dest_addr
unfolding add_precursor
add_keeps_dest a e = ground arith

pub precursors-lookup :
    (a b : ℕ) (s : State) (e r : RtEntry)
    → lookup a s.rt_tbl ≡ some e
    → lookup b s.rt_tbl ≡ some r
    → (b == a) ≡ false
    → lookup a (add_precursors a b s).1.rt_tbl ≡ some (add_precursor r.next_hop e)
unfolding precursor_add
precursors-lookup a b s e r h k apart =
    let at_b : entry_at b s ≡ r = entry-found b s r k in
    let s' : State = (precursor_add a (entry_at b s).next_hop s).1 in
    lookup-write_table b (add_precursor (entry_at a s').next_hop) (add_keeps_dest _) a s'.rt_tbl
    ∙ ap
        (λ c.
          if c
          then map_entry (add_precursor (entry_at a s').next_hop) (lookup a s'.rt_tbl)
          else lookup a s'.rt_tbl)
        apart
    ∙ lookup-write_table a (add_precursor (entry_at b s).next_hop) (add_keeps_dest _) a s.rt_tbl
    ∙ ap₂ (λ x o. if a == a then map_entry (add_precursor x) o else o)
        (ap (λ (x : RtEntry). x.next_hop) at_b) h
    ∙ ground arith

pub timeout-rt_tbl : (d l : ℕ) (s : State) → (rt_table_update_timeout d l s).1.rt_tbl ≡ s.rt_tbl
unfolding rt_table_update_timeout gettimeofday
timeout-rt_tbl d l s = ground arith

-- The entries keep their next hop and their precursors when a neighbor is marked.
abbrev pub IsRoute : ℕ → RoutingTable → RtEntry → Type 0
IsRoute k t e =
    (e' : RtEntry) × (lookup k t ≡ some e')
    × (e'.next_hop ≡ e.next_hop)
    × (e'.precursors ≡ e.precursors)

pub mark-IsRoute :
    (m : Rrep) (o : Option ℕ) (k : ℕ) (s : State) (e : RtEntry)
    → lookup k s.rt_tbl ≡ some e
    → IsRoute k (mark_neighbor o m s).1.rt_tbl e
unfolding gettimeofday
mark-IsRoute m none k s e h = (e, h, refl, refl)
mark-IsRoute m (some n) k s e h =
    let one_way : RtEntry → RtEntry =
      λ x. record x { flags = record (x.flags) { unidir = true } } in
    (
      if (s.timer.timers (ack_timer n)).used then e else if n == k then one_way e else e,
      ground (arith, h, lookup-write_table n one_way (λ x. refl) k s.rt_tbl),
      ground arith,
      ground arith,
    )

pub add-hop : (a : ℕ) (e : RtEntry) → (add_precursor a e).next_hop ≡ e.next_hop
unfolding add_precursor
add-hop a e = ground arith

pub add-first :
    (a b : ℕ) (e : RtEntry) → e.precursors ≡ [] → a ≡ b → (add_precursor a e).precursors ≡ b ∷ []
unfolding add_precursor
add-first a b e h same = ground (arith, h, same)
