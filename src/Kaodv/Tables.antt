-- ===== src/Kaodv/Tables.antt =====
-- What each operation does to the invariants of the two lists.
use aodv.Base.{
  ℕ, ◌+◌, ◌≤◌, ◌<◌, ◌≡◌, none, some, is_some, List, [], ◌∷◌, length, length-append, ltb, arith,
  Bool-cases, Option-cases, inl, inr,
}
use aodv.Kaodv.Defs.{ExplFlags, ExplEntry, QueueEntry, Kernel, kmalloc}
use aodv.Kaodv.Expl.{
  expl_max_len, check_expl, link_expl, kaodv_expl_get, add_expl, kaodv_expl_add, kaodv_expl_update,
  kaodv_expl_del, unlink_expl, deadline,
}
use aodv.Kaodv.Queue.{
  enqueue_entry, entry_of, kaodv_queue_enqueue_packet, check_entry, unlink_queued,
}
use aodv.Kaodv.Routes.{
  IsSorted, OneEach, check-unlink_self, insert-OneEach, unlink-OneEach, insert-IsSorted,
  unlink-IsSorted,
}
use aodv.Kaodv.Frame.{KeptByTaking}
use aodv.Kaodv.Keep.{KeptByUpdate, KeptByEnqueue}

-- The routes stand in the order in which they expire, and no destination has two.
abbrev pub IsTable : Kernel → Type 0
IsTable k = IsSorted k.expl × OneEach k.expl

link-IsTable :
    (e : ExplEntry) (k : Kernel)
    → check_expl e.daddr k.expl ≡ none
    → IsTable k
    → IsTable (link_expl e k).1
unfolding link_expl
link-IsTable e k h t = elim (Bool-cases (ltb expl_max_len k.expl_len)) [
  | inl full ↦ rw (full, link_expl) t
  | inr room ↦ rw (room, link_expl) (insert-IsSorted e k.expl t.0, insert-OneEach e k.expl h t.1)
]

pub update-IsTable : KeptByUpdate IsTable
unfolding kaodv_expl_update
update-IsTable d n t fl i k p = elim (Option-cases (check_expl d k.expl)) [
  | inl h ↦ rw (h, kaodv_expl_update) p
  | inr (e, h) ↦
      rw (h, kaodv_expl_update)
        (link-IsTable (record e { nhop = n; flags = fl; ifindex = i; expires = deadline t k })
          (record k { expl = unlink_expl d k.expl }) (check-unlink_self d e k.expl h p.1)
          (unlink-IsSorted d k.expl p.0, unlink-OneEach d k.expl p.1))
]

add_expl-IsTable :
    (e : ExplEntry) (k : Kernel)
    → check_expl e.daddr k.expl ≡ none
    → IsTable k
    → IsTable (add_expl e k).1
unfolding add_expl
add_expl-IsTable e k h t = link-IsTable e k h t

pub add-IsTable :
    (d n t : ℕ) (fl : ExplFlags) (i : ℕ) (k : Kernel)
    → IsTable k
    → IsTable (kaodv_expl_add d n t fl i k).1
unfolding kaodv_expl_add kaodv_expl_get kmalloc
add-IsTable d n t fl i k p = elim (Option-cases (check_expl d k.expl)) [
  | inr (e, h) ↦ rw (h, kaodv_expl_add, kaodv_expl_get) p
  | inl h ↦ elim (Bool-cases (k.env.kmalloc k.allocs)) [
    | inr m ↦ rw (h, m, kaodv_expl_add, kaodv_expl_get) p
    | inl m ↦
        rw (h, m, kaodv_expl_add, kaodv_expl_get)
          (add_expl-IsTable
            (record { expires = deadline t k; flags = fl; daddr = d; nhop = n; ifindex = i })
            (record k { allocs = k.allocs + 1 }) h p)
  ]
]

pub del-IsTable : (d : ℕ) (k : Kernel) → IsTable k → IsTable (kaodv_expl_del d k).1
unfolding kaodv_expl_del
del-IsTable d k p = elim (Bool-cases (is_some (check_expl d k.expl))) [
  | inl h ↦ rw (h, kaodv_expl_del) (unlink-IsSorted d k.expl p.0, unlink-OneEach d k.expl p.1)
  | inr h ↦ rw (h, kaodv_expl_del) p
]

pub enqueue-IsTable : KeptByEnqueue IsTable
unfolding kaodv_queue_enqueue_packet enqueue_entry kmalloc
enqueue-IsTable skb okfn k p = ground (arith, p.0, p.1)

-- A list as long as its count says, and not longer than `queue_maxlen`.
abbrev pub IsCounted : Kernel → Type 0
IsCounted k =
    (k.queue_total ≡ length k.queue)
    × (k.queue_total ≤ k.queue_maxlen)
    × (k.queue_maxlen < 4294967296)

pub enqueue-IsCounted : KeptByEnqueue IsCounted
unfolding kaodv_queue_enqueue_packet enqueue_entry kmalloc
enqueue-IsCounted skb okfn k p =
    ground (arith, p.0, p.1, p.2, length-append k.queue (entry_of skb okfn ∷ []))

length-unlink :
    (d : ℕ) (e : QueueEntry) (l : List QueueEntry)
    → check_entry d l ≡ some e
    → length (unlink_queued d l) + 1 ≡ length l
unfolding check_entry unlink_queued
length-unlink d e [] h = ground (arith, h)
length-unlink d e (c ∷ l) h = ground (arith, h, length-unlink d e l)

pub without-IsCounted : (d : ℕ) → KeptByTaking IsCounted d
without-IsCounted d e k h p = ground (arith, p.0, p.1, p.2, length-unlink d e k.queue h)
