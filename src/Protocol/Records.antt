-- ===== src/Protocol/Records.antt =====
-- aodv_rreq.c: the records of the RREQs that were seen, and the blacklist of neighbors.
-- A `struct rreq_record *` is the pair of its fields, a `struct rreq_blacklist *` its address.
use aodv.Base.{
  ℕ, ◌+◌, Bool, true, false, ◌&&◌, List, [], ◌∷◌, ℤ, pos, sub_ℕ, tdiv, pos_part, neg_part, ◌==◌,
  if◌then◌else◌,
}
use aodv.Timer.{rec_timer, bl_timer, Handler}
use aodv.Node.{⊤, M, skip, get, gets, modify, ◌>>=◌, ◌>>◌, init_timer, set_timeout, RreqRecord}

-- PATH_DISCOVERY_TIME
abbrev pub path_discovery_time : ℕ
path_discovery_time = 5600

-- BLACKLIST_TIMEOUT
abbrev pub blacklist_timeout : ℕ → ℤ
blacklist_timeout ttl_start =
    let q : ℤ = tdiv (sub_ℕ 7 ttl_start) 2 in sub_ℕ (5600 + pos_part q + 1 + 2) (neg_part q)

unfoldable pub has_record : ℕ → ℕ → List RreqRecord → Bool
has_record a i [] = false
has_record a i (r ∷ l) = if r.orig_addr == a && r.rreq_id == i then true else has_record a i l

unfoldable pub remove_record : ℕ → ℕ → List RreqRecord → List RreqRecord
remove_record a i [] = []
remove_record a i (r ∷ l) =
    if r.orig_addr == a && r.rreq_id == i then l else r ∷ remove_record a i l

unfoldable pub has_addr : ℕ → List ℕ → Bool
has_addr a [] = false
has_addr a (b ∷ l) = if b == a then true else has_addr a l

unfoldable pub remove_addr : ℕ → List ℕ → List ℕ
remove_addr a [] = []
remove_addr a (b ∷ l) = if b == a then l else b ∷ remove_addr a l

unfoldable pub rreq_record_check : ℕ → ℕ → M Bool
unfolding has_record
rreq_record_check orig_addr rreq_id = gets λ s. has_record orig_addr rreq_id s.rreq_records

unfoldable pub rreq_record_insert : ℕ → ℕ → M ⊤
unfolding rreq_record_check
rreq_record_insert orig_addr rreq_id = do
  old ← rreq_record_check orig_addr rreq_id
  if old then skip else (do
    init_timer (rec_timer orig_addr rreq_id) Handler.rreq_record_timeout
    modify λ s. record s {
      rreq_records = record { orig_addr = orig_addr; rreq_id = rreq_id } ∷ s.rreq_records;
    }
    set_timeout (rec_timer orig_addr rreq_id) (pos path_discovery_time))

unfoldable pub rreq_blacklist_check : ℕ → M Bool
unfolding has_addr
rreq_blacklist_check dest_addr = gets λ s. has_addr dest_addr s.rreq_blacklists

unfoldable pub rreq_blacklist_insert : ℕ → M ⊤
unfolding rreq_blacklist_check
rreq_blacklist_insert dest_addr = do
  s ← get
  old ← rreq_blacklist_check dest_addr
  if old then skip else (do
    init_timer (bl_timer dest_addr) Handler.rreq_blacklist_timeout
    modify λ s. record s { rreq_blacklists = dest_addr ∷ s.rreq_blacklists }
    set_timeout (bl_timer dest_addr) (blacklist_timeout s.conf.ttl_start))
