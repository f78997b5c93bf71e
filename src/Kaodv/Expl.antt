-- ===== src/Kaodv/Expl.antt =====
-- kaodv_expl.c: the list of routes, sorted by the time at which they expire. EXPL_TIMER is defined in
-- none of the build's files, so the code under it is not part of the module.
use aodv.Base.{
  ℕ, ◌+◌, ◌*◌, ◌/◌, Option, none, some, is_some, List, [], ◌∷◌, ℤ, pos, negsuc, ltb, ◌==◌,
  if◌then◌else◌,
}
use aodv.Node.{inc_u32, dec_u32}
use aodv.Kaodv.Defs.{ExplFlags, ExplEntry, Kernel, kmalloc}

-- EXPL_MAX_LEN
abbrev pub expl_max_len : ℕ
expl_max_len = 1024

-- -ENOSPC, -ENOMEM, -EINVAL and -1
abbrev pub enospc : ℤ
enospc = negsuc 27

abbrev pub enomem : ℤ
enomem = negsuc 11

abbrev pub einval : ℤ
einval = negsuc 21

-- __kaodv_expl_check
unfoldable pub check_expl : ℕ → List ExplEntry → Option ExplEntry
check_expl daddr [] = none
check_expl daddr (e ∷ l) = if e.daddr == daddr then some e else check_expl daddr l

-- The loop of __kaodv_expl_add: in front of the first route that expires later.
unfoldable pub insert_expl : ExplEntry → List ExplEntry → List ExplEntry
insert_expl e [] = e ∷ []
insert_expl e (curr ∷ l) =
    if ltb e.expires curr.expires then e ∷ curr ∷ l else curr ∷ insert_expl e l

-- list_del of the route that __kaodv_expl_check finds.
unfoldable pub unlink_expl : ℕ → List ExplEntry → List ExplEntry
unlink_expl daddr [] = []
unlink_expl daddr (e ∷ l) = if e.daddr == daddr then l else e ∷ unlink_expl daddr l

-- __kaodv_expl_add
unfoldable pub link_expl : ExplEntry → Kernel → ℤ × Kernel
unfolding insert_expl
link_expl e k =
    if ltb expl_max_len k.expl_len
    then (enospc, k)
    else (pos 1, record k { expl = insert_expl e k.expl })

unfoldable pub kaodv_expl_get : ℕ → Kernel → Option ExplEntry
unfolding check_expl
kaodv_expl_get daddr k = check_expl daddr k.expl

-- jiffies + (time * HZ) / 1000
abbrev pub deadline : ℕ → Kernel → ℕ
deadline time k = k.jiffies + (time * k.env.hz) / 1000

-- `expl_len` goes up for any status but 0, and __kaodv_expl_add returns no 0.
unfoldable pub add_expl : ExplEntry → Kernel → ℤ × Kernel
unfolding link_expl
add_expl e k =
    let (status, k') = link_expl e k in (status, record k' { expl_len = inc_u32 k'.expl_len })

unfoldable pub kaodv_expl_add : ℕ → ℕ → ℕ → ExplFlags → ℕ → Kernel → ℤ × Kernel
unfolding kaodv_expl_get kmalloc add_expl
kaodv_expl_add daddr nhop time flags ifindex k =
    if is_some (kaodv_expl_get daddr k)
    then (pos 0, k)
    else let (ok, k') = kmalloc k in
      if ok
      then add_expl
          (record {
            expires = deadline time k';
            flags = flags;
            daddr = daddr;
            nhop = nhop;
            ifindex = ifindex;
          })
          k'
      else (enomem, k')

-- The status of the second __kaodv_expl_add is not read: a route that it refuses is gone.
unfoldable pub kaodv_expl_update : ℕ → ℕ → ℕ → ExplFlags → ℕ → Kernel → ℤ × Kernel
unfolding check_expl unlink_expl link_expl
kaodv_expl_update daddr nhop time flags ifindex k = elim (check_expl daddr k.expl) [
  | none ↦ (negsuc 0, k)
  | some e ↦
      let e' : ExplEntry = record e {
        nhop = nhop;
        flags = flags;
        ifindex = ifindex;
        expires = deadline time k;
      } in
      (pos 0, (link_expl e' (record k { expl = unlink_expl daddr k.expl })).1)
]

unfoldable pub kaodv_expl_del : ℕ → Kernel → ℤ × Kernel
unfolding check_expl unlink_expl
kaodv_expl_del daddr k =
    if is_some (check_expl daddr k.expl)
    then (pos 1, record k { expl = unlink_expl daddr k.expl; expl_len = dec_u32 k.expl_len })
    else (pos 0, k)

-- __kaodv_expl_flush: one round for each route.
abbrev pub count_off : List ExplEntry → ℕ → ℕ
count_off [] n = n
count_off (e ∷ l) n = count_off l (dec_u32 n)

unfoldable pub kaodv_expl_flush : Kernel → Kernel
kaodv_expl_flush k = record k { expl = []; expl_len = count_off k.expl k.expl_len }
