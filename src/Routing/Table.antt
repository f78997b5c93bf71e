-- ===== src/Routing/Table.antt =====
-- routing_table.c: the hash table as a store of entries. A `rt_table_t *` is the destination of the
-- entry that it points to, which never changes and is in the table once. A read through a pointer to
-- no entry gives the zeroed entry, and a write changes nothing.
use aodv.Base.{
  ℕ, zero, suc, ◌+◌, ◌%◌, ◌&&◌, Option, none, some, List, [], ◌∷◌, map, update, ◌==◌, if◌then◌else◌,
}
use aodv.Timer.{zero_time}
use aodv.Node.{State, ⊤, M, gets, modify, RtEntry, RoutingTable, no_flags, invalid}

-- RT_TABLESIZE; `*hash & RT_TABLEMASK` is the remainder by it.
abbrev pub rt_tablesize : ℕ
rt_tablesize = 64

abbrev pub hashing : ℕ → ℕ
hashing addr = addr % rt_tablesize

abbrev pub null_entry : RtEntry
null_entry = record {
  dest_addr = 0;
  dest_seqno = 0;
  next_hop = 0;
  hopcnt = 0;
  flags = no_flags;
  state = invalid;
  last_hello_time = zero_time;
  hello_cnt = 0;
  hash = 0;
  nprecursor = 0;
  precursors = [];
}

-- The entry of a bucket for a destination.
unfoldable pub find : ℕ → List RtEntry → Option RtEntry
find d [] = none
find d (e ∷ l) = if d == e.dest_addr then some e else find d l

-- The loop of rt_table_check.
unfoldable pub check_bucket : ℕ → ℕ → List RtEntry → Option ℕ
check_bucket hash dest [] = none
check_bucket hash dest (e ∷ l) =
    if e.hash == hash && dest == e.dest_addr then some e.dest_addr else check_bucket hash dest l

-- A write to the entry for a destination.
unfoldable pub write_bucket : ℕ → (RtEntry → RtEntry) → List RtEntry → List RtEntry
write_bucket d f [] = []
write_bucket d f (e ∷ l) = if d == e.dest_addr then f e ∷ l else e ∷ write_bucket d f l

-- list_remove of the entry's links.
unfoldable pub unlink_entry : ℕ → List RtEntry → List RtEntry
unlink_entry d [] = []
unlink_entry d (e ∷ l) = if d == e.dest_addr then l else e ∷ unlink_entry d l

unfoldable pub lookup : ℕ → RoutingTable → Option RtEntry
unfolding find
lookup d t = find d (t.tbl (hashing d))

abbrev pub or_null : Option RtEntry → RtEntry
or_null none = null_entry
or_null (some e) = e

unfoldable pub entry_at : ℕ → State → RtEntry
unfolding lookup
entry_at d s = or_null (lookup d s.rt_tbl)

abbrev pub deref : ℕ → M RtEntry
deref d = gets (entry_at d)

abbrev pub on_table : (RoutingTable → RoutingTable) → M ⊤
on_table f = modify λ s. record s { rt_tbl = f s.rt_tbl }

unfoldable pub write_table : ℕ → (RtEntry → RtEntry) → RoutingTable → RoutingTable
unfolding write_bucket
write_table d f t = record t {
  tbl = update t.tbl (hashing d) (write_bucket d f (t.tbl (hashing d)));
}

abbrev pub write_rt : ℕ → (RtEntry → RtEntry) → M ⊤
write_rt d f = on_table (write_table d f)

unfoldable pub link_entry : RtEntry → RoutingTable → RoutingTable
link_entry e t = record t {
  tbl = update t.tbl (hashing e.dest_addr) (e ∷ t.tbl (hashing e.dest_addr));
}

unfoldable pub unlink_table : ℕ → RoutingTable → RoutingTable
unfolding unlink_entry
unlink_table d t = record t { tbl = update t.tbl (hashing d) (unlink_entry d (t.tbl (hashing d))) }

-- The pointers that a walk over one bucket meets.
abbrev pub bucket_keys : ℕ → RoutingTable → List ℕ
bucket_keys i t = map (λ (e : RtEntry). e.dest_addr) (t.tbl i)

-- rt_table_init
unfoldable pub rt_table_init : M ⊤
rt_table_init = on_table λ t. record { num_entries = 0; num_active = 0; tbl = λ i. [] }

-- rt_table_check
unfoldable pub rt_table_check : ℕ → M (Option ℕ)
unfolding check_bucket
rt_table_check dest = gets λ s.
    if s.rt_tbl.num_entries == 0 then none else check_bucket dest dest (s.rt_tbl.tbl (hashing dest))

-- A loop over pointers that threads the function's local variables.
module _ {L : Type 0} where
  unfoldable pub for_each : (ℕ → L → M L) → List ℕ → L → M L
  for_each body [] v s = (v, s)
  for_each body (p ∷ l) v s = let (v', s') = body p v s in for_each body l v' s'

  -- `for(i = 0; i < RT_TABLESIZE; i++) list_for_each(pos, &rt_tbl.tbl[i])`, with `n` rounds left. The
  -- body links no entry, and unlinks none but the one it is called for.
  unfoldable pub for_buckets : ℕ → ℕ → (ℕ → L → M L) → L → M L
  unfolding for_each
  for_buckets zero i body v s = (v, s)
  for_buckets (suc n) i body v s =
      let (v', s') = for_each body (bucket_keys i s.rt_tbl) v s in for_buckets n (i + 1) body v' s'
