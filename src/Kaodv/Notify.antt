-- ===== src/Kaodv/Notify.antt =====
-- kaodv_netlink.c: the messages that the module sends to the daemon. One for which there is no memory
-- is not sent.
use aodv.Base.{ℕ, List, ◌∷◌, if◌then◌else◌}
use aodv.Kaodv.Defs.{
  KaodvMsg, rt_msg, debug, route_update, rerr, RtMsgType, Direction, Kernel, kmalloc,
}

-- kaodv_netlink_build_msg and netlink_broadcast
unfoldable pub broadcast : KaodvMsg → Kernel → Kernel
unfolding kmalloc
broadcast m k =
    let (ok, k') = kmalloc k in if ok then record k' { to_daemon = m ∷ k'.to_daemon } else k'

unfoldable pub kaodv_netlink_send_rt_msg : RtMsgType → ℕ → ℕ → Kernel → Kernel
unfolding broadcast
kaodv_netlink_send_rt_msg type src dest = broadcast (rt_msg type src dest)

unfoldable pub kaodv_netlink_send_rt_update_msg : Direction → ℕ → ℕ → ℕ → Kernel → Kernel
unfolding broadcast
kaodv_netlink_send_rt_update_msg type src dest ifindex =
    broadcast (route_update type src dest ifindex)

unfoldable pub kaodv_netlink_send_rerr_msg : Direction → ℕ → ℕ → ℕ → Kernel → Kernel
unfolding broadcast
kaodv_netlink_send_rerr_msg type src dest ifindex = broadcast (rerr type src dest ifindex)

unfoldable pub kaodv_netlink_send_debug_msg : List ℕ → Kernel → Kernel
unfolding broadcast
kaodv_netlink_send_debug_msg buf = broadcast (debug buf)
