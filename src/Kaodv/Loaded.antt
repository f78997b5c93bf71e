-- ===== src/Kaodv/Loaded.antt =====
-- The module's lists from the moment that it is loaded.
use aodv.Base.{
  ℕ, ◌+◌, ◌<◌, ◌≡◌, refl, Option, none, some, List, [], ◌∷◌, ℤ, pos, ltb_ℤ, if-keep, arith,
}
use aodv.Kaodv.Defs.{Kernel, IfInfo, kmalloc}
use aodv.Kaodv.Routes.{OneEach}
use aodv.Kaodv.Hook.{KernelEvent, kernel_run}
use aodv.Kaodv.Invariant.{IsSound, flush-IsSound, kernel_run-IsSound}
use aodv.Kaodv.Load.{
  Device, LoadEnv, Module, kaodv_expl_init, kaodv_queue_init, kaodv_netlink_init, register_hook,
  kaodv_queue_finish, kaodv_netlink_finish, if_info_add, add_interfaces, cleanup_queue,
  cleanup_netlink, cleanup_hook0, cleanup_hook1, use_interfaces, with_queue, with_netlink,
  with_hook0, with_hook1, kaodv_init,
}
use aodv.Kaodv.Loading.{or_cleanup-cases}

empty-IsSound :
    (k : Kernel)
    → k.expl ≡ []
    → k.queue ≡ []
    → k.queue_maxlen < 4294967296
    → IsSound (record k { expl_len = 0; queue_total = 0 })
unfolding IsSound OneEach
empty-IsSound k e q b = rw (e, q) ((tt, tt), (refl, omega arith, b))

-- The list of interfaces and the count of allocations do not matter.
elsewhere-IsSound :
    (a : ℕ) (l : List IfInfo) (k : Kernel) → IsSound k → IsSound (record k { allocs = a; ifi = l })
unfolding IsSound
elsewhere-IsSound a l k p = p

if_info_add-IsSound :
    (env : LoadEnv) (dev : Device) (k : Kernel) → IsSound k → IsSound (if_info_add env dev k)
unfolding if_info_add kmalloc
if_info_add-IsSound env dev k p =
    if-keep IsSound (k.env.kmalloc k.allocs) (elsewhere-IsSound (k.allocs + 1) _ k p)
      (elsewhere-IsSound (k.allocs + 1) k.ifi k p)

add_interfaces-IsSound :
    (env : LoadEnv) (l : List (Option Device)) (k : Kernel)
    → IsSound k
    → IsSound (add_interfaces env l k)
add_interfaces-IsSound env [] k p = p
add_interfaces-IsSound env (none ∷ l) k p = add_interfaces-IsSound env l k p
add_interfaces-IsSound env (some dev ∷ l) k p =
    add_interfaces-IsSound env l (if_info_add env dev k) (if_info_add-IsSound env dev k p)

abbrev IsSoundModule : ℤ × Module → Type 0
IsSoundModule r = IsSound r.1.kernel

module _ (env : LoadEnv) where
  register-IsSound :
      (i : ℕ) (s : Module) → IsSound s.kernel → IsSound (register_hook env i s).1.kernel
  register-IsSound i s p =
      if-keep (λ (x : Module). IsSound x.kernel) (ltb_ℤ (env.nf_register_hook i) (pos 0)) p p

  hook1-IsSound : (s : Module) → IsSound s.kernel → IsSoundModule (with_hook1 env s)
  unfolding kaodv_netlink_finish kaodv_queue_finish
  hook1-IsSound s p =
      or_cleanup-cases IsSoundModule (register_hook env 2 s) cleanup_hook1
        (use_interfaces env (env.nf_register_hook 2))
        (λ h. flush-IsSound (register_hook env 2 s).1.kernel (register-IsSound 2 s p))
        (λ h.
          add_interfaces-IsSound env env.devices (register_hook env 2 s).1.kernel
            (register-IsSound 2 s p))

  hook0-IsSound : (s : Module) → IsSound s.kernel → IsSoundModule (with_hook0 env s)
  unfolding kaodv_netlink_finish kaodv_queue_finish
  hook0-IsSound s p =
      or_cleanup-cases IsSoundModule (register_hook env 1 s) cleanup_hook0 (with_hook1 env)
        (λ h. flush-IsSound (register_hook env 1 s).1.kernel (register-IsSound 1 s p))
        (λ h. hook1-IsSound (register_hook env 1 s).1 (register-IsSound 1 s p))

  netlink-IsSound : (s : Module) → IsSound s.kernel → IsSoundModule (with_netlink env s)
  unfolding kaodv_netlink_finish kaodv_queue_finish
  netlink-IsSound s p =
      or_cleanup-cases IsSoundModule (register_hook env 0 s) cleanup_netlink (with_hook0 env)
        (λ h. flush-IsSound (register_hook env 0 s).1.kernel (register-IsSound 0 s p))
        (λ h. hook0-IsSound (register_hook env 0 s).1 (register-IsSound 0 s p))

  netlink_init-IsSound :
      (s : Module) → IsSound s.kernel → IsSound (kaodv_netlink_init env s).1.kernel
  unfolding kaodv_netlink_init
  netlink_init-IsSound s p =
      if-keep (λ (r : ℤ × Module). IsSound r.1.kernel) env.netlink_kernel_create p p

  queue-IsSound : (s : Module) → IsSound s.kernel → IsSoundModule (with_queue env s)
  unfolding kaodv_queue_finish
  queue-IsSound s p =
      or_cleanup-cases IsSoundModule (kaodv_netlink_init env s) cleanup_queue (with_netlink env)
        (λ h. flush-IsSound (kaodv_netlink_init env s).1.kernel (netlink_init-IsSound s p))
        (λ h. netlink-IsSound (kaodv_netlink_init env s).1 (netlink_init-IsSound s p))

  init-IsSound :
      (s : Module)
      → s.kernel.expl ≡ []
      → s.kernel.queue ≡ []
      → s.kernel.queue_maxlen < 4294967296
      → IsSoundModule (kaodv_init env s)
  unfolding kaodv_init kaodv_expl_init kaodv_queue_init
  init-IsSound s e q b =
      let s' : Module = (kaodv_queue_init env (kaodv_expl_init env s)).1 in
      let p : IsSound s'.kernel = empty-IsSound s.kernel e q b in
      or_cleanup-cases IsSoundModule (kaodv_queue_init env (kaodv_expl_init env s)) (λ x. x)
        (with_queue env) (λ h. p) (λ h. queue-IsSound s' p)

-- From the moment that it is loaded, whatever the steps of the loading meet, and after any packets, messages and
-- releases in any order, the module's lists are in order: the routes stand in the order in which they
-- expire, no destination has two, `queue_total` is the length of the queue of packets, and that is at
-- most `queue_maxlen`. It is so when both lists are empty before and `queue_maxlen` is below 2^32.
pub loaded-IsSound :
    (env : LoadEnv) (l : List KernelEvent) (s : Module)
    → s.kernel.expl ≡ []
    → s.kernel.queue ≡ []
    → s.kernel.queue_maxlen < 4294967296
    → IsSound (kernel_run l (kaodv_init env s).1.kernel)
loaded-IsSound env l s e q b =
    kernel_run-IsSound l (kaodv_init env s).1.kernel (init-IsSound env s e q b)
