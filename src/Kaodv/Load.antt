-- ===== src/Kaodv/Load.antt =====
-- kaodv_mod.c: how the module is loaded and unloaded, with the functions of its other files that take
-- part, and kaodv_mod.h: the list of interfaces.
use aodv.Base.{
  ℕ, Bool, true, false, Option, none, some, List, [], ◌∷◌, ℤ, pos, negsuc, ltb_ℤ, update,
  if◌then◌else◌,
}
use aodv.Kaodv.Defs.{Kernel, kmalloc}
use aodv.Kaodv.Expl.{kaodv_expl_flush}
use aodv.Kaodv.Queue.{kaodv_queue_flush}

-- An address of a device: whether its label is the device's name, and its two parts.
pub record IfAddr : Type 0 where
  pub is_named : Bool
  pub ifa_address : ℕ
  pub ifa_broadcast : ℕ

-- A device: its index, and what in_dev_get gives for it.
pub record Device : Type 0 where
  pub ifindex : ℕ
  pub ifa_list : Option (List IfAddr)

-- What the kernel answers: whether proc_create makes the files of the routes and of the queue, whether
-- netlink_kernel_create makes the socket, the status of nf_register_hook for each of `kaodv_ops`, the device
-- of each of `ifname`, and the contents of the memory that kmalloc gives for an interface.
pub record LoadEnv : Type 0 where
  pub expl_proc : Bool
  pub queue_proc : Bool
  pub netlink_kernel_create : Bool
  pub nf_register_hook : ℕ → ℤ
  pub devices : List (Option Device)
  pub garbage : ℕ × ℕ

-- The module's state with what it has registered: its two files, its socket with the notifier, and the hooks
-- of `kaodv_ops`.
pub record Module : Type 0 where
  pub kernel : Kernel
  pub expl_proc : Bool
  pub queue_proc : Bool
  pub netlink : Bool
  pub hooks : ℕ → Bool

-- KAODV_QUEUE_QMAX_DEFAULT
abbrev pub queue_qmax_default : ℕ
queue_qmax_default = 1024

unfoldable pub kaodv_expl_init : LoadEnv → Module → Module
kaodv_expl_init env s = record s {
  expl_proc = env.expl_proc;
  kernel = record (s.kernel) { expl_len = 0 };
}

unfoldable pub kaodv_queue_init : LoadEnv → Module → ℤ × Module
kaodv_queue_init env s =
    let s' : Module = record s {
      queue_proc = env.queue_proc;
      kernel = record (s.kernel) { queue_total = 0 };
    } in
    (if env.queue_proc then pos 1 else negsuc 0, s')

unfoldable pub kaodv_netlink_init : LoadEnv → Module → ℤ × Module
kaodv_netlink_init env s =
    if env.netlink_kernel_create then (pos 0, record s { netlink = true }) else (negsuc 0, s)

-- nf_register_hook and nf_unregister_hook of kaodv_ops[i]
abbrev pub register_hook : LoadEnv → ℕ → Module → ℤ × Module
register_hook env i s =
    let ret : ℤ = env.nf_register_hook i in
    (ret, if ltb_ℤ ret (pos 0) then s else record s { hooks = update s.hooks i true })

abbrev pub unregister_hook : ℕ → Module → Module
unregister_hook i s = record s { hooks = update s.hooks i false }

unfoldable pub kaodv_expl_finish : Module → Module
unfolding kaodv_expl_flush
kaodv_expl_finish s = record s { kernel = kaodv_expl_flush s.kernel; expl_proc = false }

unfoldable pub kaodv_queue_finish : Module → Module
unfolding kaodv_queue_flush
kaodv_queue_finish s = record s { kernel = kaodv_queue_flush s.kernel; queue_proc = false }

unfoldable pub kaodv_netlink_finish : Module → Module
kaodv_netlink_finish s = record s { netlink = false }

-- The loop of if_info_add: the address whose label is the device's name.
abbrev pub find_named : List IfAddr → Option IfAddr
find_named [] = none
find_named (a ∷ l) = if a.is_named then some a else find_named l

abbrev pub addresses : ℕ × ℕ → Option IfAddr → ℕ × ℕ
addresses garbage none = garbage
addresses garbage (some a) = (a.ifa_address, a.ifa_broadcast)

abbrev pub named_address : Option (List IfAddr) → Option IfAddr
named_address none = none
named_address (some l) = find_named l

-- Without such an address the two fields keep what the memory had.
unfoldable pub if_info_add : LoadEnv → Device → Kernel → Kernel
unfolding kmalloc
if_info_add env dev k =
    let (ok, k') = kmalloc k in
    if ok
    then (let (if_addr, bc_addr) = addresses env.garbage (named_address dev.ifa_list) in
        record k' {
          ifi = record { ifindex = dev.ifindex; if_addr = if_addr; bc_addr = bc_addr } ∷ k'.ifi;
        })
    else k'

unfoldable pub if_info_purge : Kernel → Kernel
if_info_purge k = record k { ifi = [] }

abbrev pub add_interfaces : LoadEnv → List (Option Device) → Kernel → Kernel
add_interfaces env [] k = k
add_interfaces env (none ∷ l) k = add_interfaces env l k
add_interfaces env (some dev ∷ l) k = add_interfaces env l (if_info_add env dev k)

-- The labels at the end of kaodv_init.
abbrev pub cleanup_queue : Module → Module
cleanup_queue s = kaodv_queue_finish s

abbrev pub cleanup_netlink : Module → Module
cleanup_netlink s = cleanup_queue (kaodv_netlink_finish s)

abbrev pub cleanup_hook0 : Module → Module
cleanup_hook0 s = cleanup_netlink (unregister_hook 0 s)

abbrev pub cleanup_hook1 : Module → Module
cleanup_hook1 s = cleanup_hook0 (unregister_hook 1 s)

-- A step of kaodv_init: on a status below 0 the function ends with the given clean-up.
abbrev pub or_cleanup : ℤ × Module → (Module → Module) → (Module → ℤ × Module) → ℤ × Module
or_cleanup r cleanup next = if ltb_ℤ r.0 (pos 0) then (r.0, cleanup r.1) else next r.1

-- The last step: its status is that of the last hook.
abbrev pub use_interfaces : LoadEnv → ℤ → Module → ℤ × Module
use_interfaces env ret s = (ret, record s { kernel = add_interfaces env env.devices s.kernel })

-- What follows each step of kaodv_init.
abbrev pub with_hook1 : LoadEnv → Module → ℤ × Module
with_hook1 env s =
    or_cleanup (register_hook env 2 s) cleanup_hook1 (use_interfaces env (env.nf_register_hook 2))

abbrev pub with_hook0 : LoadEnv → Module → ℤ × Module
with_hook0 env s = or_cleanup (register_hook env 1 s) cleanup_hook0 (with_hook1 env)

abbrev pub with_netlink : LoadEnv → Module → ℤ × Module
with_netlink env s = or_cleanup (register_hook env 0 s) cleanup_netlink (with_hook0 env)

abbrev pub with_queue : LoadEnv → Module → ℤ × Module
with_queue env s = or_cleanup (kaodv_netlink_init env s) cleanup_queue (with_netlink env)

unfoldable pub kaodv_init : LoadEnv → Module → ℤ × Module
unfolding kaodv_expl_init kaodv_queue_init kaodv_netlink_init kaodv_netlink_finish
    kaodv_queue_finish if_info_add
kaodv_init env s =
    or_cleanup (kaodv_queue_init env (kaodv_expl_init env s)) (λ s'. s') (with_queue env)

unfoldable pub kaodv_exit : Module → Module
unfolding if_info_purge kaodv_queue_finish kaodv_expl_finish kaodv_netlink_finish
kaodv_exit s =
    let s1 : Module = record s { kernel = if_info_purge s.kernel } in
    let s2 : Module = unregister_hook 2 (unregister_hook 1 (unregister_hook 0 s1)) in
    kaodv_netlink_finish (kaodv_expl_finish (kaodv_queue_finish s2))
