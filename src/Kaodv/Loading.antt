-- ===== src/Kaodv/Loading.antt =====
-- What loading and unloading the module leave registered, and that the lists start in order.
use aodv.Base.{
  ℕ, ◌≤◌, ◌≡◌, refl, sym, subst, update, Bool, true, false, ℤ, pos, negsuc, ltb, ltb_ℤ,
  if◌then◌else◌, arith, Bool-cases, inl, inr,
}
use aodv.Kaodv.Load.{
  LoadEnv, Module, kaodv_expl_init, kaodv_queue_init, kaodv_netlink_init, register_hook,
  kaodv_expl_finish, kaodv_queue_finish, kaodv_netlink_finish, cleanup_queue, cleanup_netlink,
  cleanup_hook0, cleanup_hook1, or_cleanup, use_interfaces, with_queue, with_netlink, with_hook0,
  with_hook1, kaodv_init, kaodv_exit,
}

pub or_cleanup-cases :
    (P : ℤ × Module → Type 0) (r : ℤ × Module) (cleanup : Module → Module)
    (next : Module → ℤ × Module)
    → (ltb_ℤ r.0 (pos 0) ≡ true → P (r.0, cleanup r.1))
    → (ltb_ℤ r.0 (pos 0) ≡ false → P (next r.1))
    → P (or_cleanup r cleanup next)
or_cleanup-cases P r cleanup next bad good = elim (Bool-cases (ltb_ℤ r.0 (pos 0))) [
  | inl h ↦ rw h (bad h)
  | inr h ↦ rw h (good h)
]

-- What is registered: the file of the routes, the file of the queue, the socket and the first hooks.
abbrev pub HasRegistered : Bool → Bool → Bool → ℕ → Module → Type 0
HasRegistered expl_proc queue_proc netlink n s =
    (s.expl_proc ≡ expl_proc)
    × (s.queue_proc ≡ queue_proc)
    × (s.netlink ≡ netlink)
    × ((i : ℕ) → s.hooks i ≡ ltb i n)

-- All that there is after a status that is no error, and after an error only the file of the routes, if it
-- was made.
abbrev pub HasAll : LoadEnv → ℤ × Module → Type 0
HasAll env r =
    if ltb_ℤ r.0 (pos 0)
    then HasRegistered env.expl_proc false false 0 r.1
    else HasRegistered env.expl_proc true true 3 r.1

module _ (env : LoadEnv) where
  hook1-HasAll :
      (s : Module) → HasRegistered env.expl_proc true true 2 s → HasAll env (with_hook1 env s)
  unfolding kaodv_netlink_finish kaodv_queue_finish
  hook1-HasAll s u =
      or_cleanup-cases (HasAll env) (register_hook env 2 s) cleanup_hook1
        (use_interfaces env (env.nf_register_hook 2))
        (λ h. rw h (u.0, refl, refl, λ i. ground (arith, u.3 i)))
        (λ h. rw h (u.0, u.1, u.2, λ i. ground (arith, u.3 i)))

  hook0-HasAll :
      (s : Module) → HasRegistered env.expl_proc true true 1 s → HasAll env (with_hook0 env s)
  unfolding kaodv_netlink_finish kaodv_queue_finish
  hook0-HasAll s u =
      or_cleanup-cases (HasAll env) (register_hook env 1 s) cleanup_hook0 (with_hook1 env)
        (λ h. rw h (u.0, refl, refl, λ i. ground (arith, u.3 i)))
        (λ h. rw h (
          hook1-HasAll (record s { hooks = update s.hooks 1 true })
            (u.0, u.1, u.2, λ i. ground (arith, u.3 i))))

  netlink-HasAll :
      (s : Module) → HasRegistered env.expl_proc true true 0 s → HasAll env (with_netlink env s)
  unfolding kaodv_netlink_finish kaodv_queue_finish
  netlink-HasAll s u =
      or_cleanup-cases (HasAll env) (register_hook env 0 s) cleanup_netlink (with_hook0 env)
        (λ h. rw h (u.0, refl, refl, u.3))
        (λ h. rw h (
          hook0-HasAll (record s { hooks = update s.hooks 0 true })
            (u.0, u.1, u.2, λ i. ground (arith, u.3 i))))

  netlink_init-result :
      (b : Bool) (s : Module)
      → env.netlink_kernel_create ≡ b
      → kaodv_netlink_init env s
        ≡ (if b then (pos 0, record s { netlink = true }) else (negsuc 0, s))
  unfolding kaodv_netlink_init
  netlink_init-result b s h = rw h refl

  queue-HasAll :
      (s : Module) → HasRegistered env.expl_proc true false 0 s → HasAll env (with_queue env s)
  unfolding kaodv_queue_finish
  queue-HasAll s u = elim (Bool-cases env.netlink_kernel_create) [
    | inl h ↦
        subst (λ (r : ℤ × Module). HasAll env (or_cleanup r cleanup_queue (with_netlink env)))
          (sym (netlink_init-result true s h))
          (netlink-HasAll (record s { netlink = true }) (u.0, u.1, refl, u.3))
    | inr h ↦
        subst (λ (r : ℤ × Module). HasAll env (or_cleanup r cleanup_queue (with_netlink env)))
          (sym (netlink_init-result false s h)) (u.0, refl, u.2, u.3)
  ]

  queue_init-result :
      (b : Bool) (s : Module)
      → env.queue_proc ≡ b
      → kaodv_queue_init env s ≡ (
        if b then pos 1 else negsuc 0,
        record s { queue_proc = b; kernel = record (s.kernel) { queue_total = 0 } },
      )
  unfolding kaodv_queue_init
  queue_init-result b s h = rw h refl

  init-HasAll :
      (s : Module)
      → (s.queue_proc ≡ false) × (s.netlink ≡ false) × ((i : ℕ) → s.hooks i ≡ ltb i 0)
      → HasAll env (kaodv_init env s)
  unfolding kaodv_init kaodv_expl_init
  init-HasAll s u = elim (Bool-cases env.queue_proc) [
    | inl h ↦
        subst (λ (r : ℤ × Module). HasAll env (or_cleanup r (λ x. x) (with_queue env)))
          (sym (queue_init-result true (kaodv_expl_init env s) h))
          (queue-HasAll _ (refl, refl, u.1, u.2))
    | inr h ↦
        subst (λ (r : ℤ × Module). HasAll env (or_cleanup r (λ x. x) (with_queue env)))
          (sym (queue_init-result false (kaodv_expl_init env s) h)) (refl, refl, u.1, u.2)
  ]

exit-clears :
    (s : Module) (n : ℕ)
    → ((i : ℕ) → s.hooks i ≡ ltb i n)
    → n ≤ 3
    → HasRegistered false false false 0 (kaodv_exit s)
unfolding kaodv_exit kaodv_netlink_finish kaodv_queue_finish kaodv_expl_finish
exit-clears s n u b = (refl, refl, refl, λ i. ground (arith, u i, b))

exit-HasAll :
    (env : LoadEnv) (r : ℤ × Module)
    → HasAll env r
    → HasRegistered false false false 0 (kaodv_exit r.1)
exit-HasAll env r a =
    let all_of : Bool → Type 0 = λ b.
      if b
      then HasRegistered env.expl_proc false false 0 r.1
      else HasRegistered env.expl_proc true true 3 r.1 in
    elim (Bool-cases (ltb_ℤ r.0 (pos 0))) [
      | inl h ↦ exit-clears r.1 0 (subst all_of h a).3 (omega arith)
      | inr h ↦ exit-clears r.1 3 (subst all_of h a).3 (omega arith)
    ]

-- After kaodv_init with a status below 0 neither the file of the queue nor the netlink socket nor a hook
-- is registered, whichever step failed, but the file of the routes is, if proc_create made it: kaodv_init takes
-- it back on no failure. After any other status the file of the queue, the socket and the three hooks are
-- registered, and the file of the routes if it was made. In both cases kaodv_exit leaves none of
-- them. It is so when neither the file of the queue nor the socket nor a hook is registered before.
pub kaodv_init-registered :
    (env : LoadEnv) (s : Module)
    → s.queue_proc ≡ false
    → s.netlink ≡ false
    → ((i : ℕ) → s.hooks i ≡ ltb i 0)
    → (if ltb_ℤ (kaodv_init env s).0 (pos 0)
        then HasRegistered env.expl_proc false false 0 (kaodv_init env s).1
        else HasRegistered env.expl_proc true true 3 (kaodv_init env s).1)
      × HasRegistered false false false 0 (kaodv_exit (kaodv_init env s).1)
kaodv_init-registered env s q n u =
    (init-HasAll env s (q, n, u), exit-HasAll env (kaodv_init env s) (init-HasAll env s (q, n, u)))
