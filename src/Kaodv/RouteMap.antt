-- ===== src/Kaodv/RouteMap.antt =====
-- The routes as a finite map that messages write, and the parts of the state that routes depend on.
use aodv.Base.{ℕ, ◌+◌, ◌≡◌, refl, Option, none, some, List, [], ◌∷◌, length, update, arith}
use aodv.Kaodv.Defs.{ExplEntry, Kernel, KernelEnv}
use aodv.Kaodv.Expl.{check_expl, insert_expl, unlink_expl, kaodv_expl_get}
use aodv.Kaodv.Queue.{Verdict}
use aodv.Kaodv.Peer.{PeerMsg, addroute, delroute, set_verdict, kaodv_netlink_receive_peer}
use aodv.Kaodv.Routes.{OneEach}
use aodv.Kaodv.Frame.{set_verdict-keep}

-- The abstract view: for each destination the route that the last message gave it.
abbrev pub RouteMap : Type 0
RouteMap = ℕ → Option ExplEntry

abbrev pub route_map : Kernel → RouteMap
route_map k d = kaodv_expl_get d k

-- What a message does to the map, where `expire` says when a time given in milliseconds ends.
abbrev pub obey : (ℕ → ℕ) → PeerMsg → RouteMap → RouteMap
obey expire (addroute d n t fl i) r =
    update r d (some (record { expires = expire t; flags = fl; daddr = d; nhop = n; ifindex = i }))
obey expire (delroute d) r = update r d none
obey expire _ r = r

abbrev pub obey_all : (ℕ → ℕ) → List PeerMsg → RouteMap → RouteMap
obey_all expire [] r = r
obey_all expire (m ∷ l) r = obey_all expire l (obey expire m r)

-- Messages of length `len` received one after the other.
abbrev pub receive_all : List PeerMsg → ℕ → Kernel → Kernel
receive_all [] len k = k
receive_all (m ∷ l) len k = receive_all l len (kaodv_netlink_receive_peer m len k).1

-- No destination has two routes, and `expl_len` counts them.
abbrev pub IsExact : Kernel → Type 0
IsExact k = OneEach k.expl × (k.expl_len ≡ length k.expl)

-- The parts of the state that the routes depend on.
abbrev pub Core : Type 0
Core = List ExplEntry × ℕ × ℕ × KernelEnv

abbrev pub core : Kernel → Core
core k = (k.expl, k.expl_len, k.jiffies, k.env)

pub verdict-core : (v : Verdict) (d : ℕ) (k : Kernel) → core (set_verdict v d k) ≡ core k
verdict-core v d k =
    set_verdict-keep (λ (k' : Kernel). core k' ≡ core k) (λ a f k' i. i) d (λ e k' h i. i) v k refl

pub unlink-none : (d : ℕ) (l : List ExplEntry) → check_expl d l ≡ none → unlink_expl d l ≡ l
unfolding check_expl unlink_expl
unlink-none d [] h = refl
unlink-none d (e ∷ l) h = ground (arith, h, unlink-none d l)

pub length-insert : (e : ExplEntry) (l : List ExplEntry) → length (insert_expl e l) ≡ length l + 1
unfolding insert_expl
length-insert e [] = refl
length-insert e (c ∷ l) = ground (arith, length-insert e l)

pub length-unlink :
    (d : ℕ) (e : ExplEntry) (l : List ExplEntry)
    → check_expl d l ≡ some e
    → length (unlink_expl d l) + 1 ≡ length l
unfolding check_expl unlink_expl
length-unlink d e [] h = ground (arith, h)
length-unlink d e (c ∷ l) h = ground (arith, h, length-unlink d e l)
