-- ===== src/Protocol/Stop.antt =====
-- main.c: the kernel's options, and the clean-up when the daemon is interrupted.
use aodv.Base.{
  ℕ, ◌≡◌, refl, Bool, true, false, ◌&&◌, List, [], ◌∷◌, ◌++◌, ℤ, ◌==◌, if◌then◌else◌, arith,
}
use aodv.Node.{State}
use aodv.Routing.Route.{rt_table_destroy}
use aodv.Log.File.{LogState, LogPath, log_cleanup}
use aodv.Protocol.Start.{
  HostEnv, ProcFile, ip_forward, if_send_redirects, if_accept_redirects, all_send_redirects,
  all_accept_redirects, set_kernel_options,
}

-- The files below /proc/sys/net/ipv4: `true` is a '1'.
abbrev pub Sysctl : Type 0
Sysctl = ProcFile → Bool

ProcFile-discrete : Discrete ProcFile
ProcFile-discrete = hlevel

abbrev put_file : ProcFile → Bool → Sysctl → Sysctl
put_file f b files g = elim (ProcFile-discrete f g) [ yes e ↦ b | no e ↦ files g ]

-- Writes in a row, the first that fails being the last.
unfoldable pub write_files : HostEnv → List (ProcFile × Bool) → Sysctl → Bool × Sysctl
unfolding ProcFile-discrete
write_files h [] files = (true, files)
write_files h ((f, b) ∷ l) files =
    let rest : Bool × Sysctl = write_files h l (put_file f b files) in
    if h.write f then rest else (false, files)

-- What both functions do: ip_forward first, then the others if the interface is enabled.
abbrev write_options : HostEnv → Bool → List (ProcFile × Bool) → Sysctl → Bool × Sysctl
write_options h enabled l files =
    let (ok, files') = write_files h ((ip_forward, true) ∷ []) files in
    if ok && enabled then write_files h l files' else (false, files')

-- What set_kernel_options writes.
unfoldable pub options_set : HostEnv → Bool → Sysctl → Bool × Sysctl
unfolding write_files
options_set h enabled files =
    write_options h enabled
      ((if_send_redirects, false)
        ∷ (if_accept_redirects, false)
        ∷ (all_send_redirects, false)
        ∷ (all_accept_redirects, false)
        ∷ [])
      files

unfoldable pub reset_kernel_options : HostEnv → Bool → Sysctl → Bool × Sysctl
unfolding write_files
reset_kernel_options h enabled files =
    write_options h enabled
      ((if_send_redirects, true)
        ∷ (if_accept_redirects, true)
        ∷ (all_send_redirects, true)
        ∷ (all_accept_redirects, false)
        ∷ [])
      files

-- What is closed, and the command that is run: aodv_socket_cleanup, nl_cleanup and remove_modules.
pub data Closed : Type 0 where
  udp_sock aodvnl_sock rtnl_sock rmmod_kaodv : Closed

unfoldable pub aodv_socket_cleanup : List Closed
aodv_socket_cleanup = udp_sock ∷ []

unfoldable pub nl_cleanup : List Closed
nl_cleanup = aodvnl_sock ∷ rtnl_sock ∷ []

unfoldable pub remove_modules : List Closed
remove_modules = rmmod_kaodv ∷ []

-- The daemon, its log and the kernel's options.
pub record Process : Type 0 where
  pub daemon : State
  pub log : LogState
  pub log_rt_fd : ℤ
  pub files : Sysctl
  pub closed : List Closed
  pub removed : List LogPath

unfoldable pub cleanup : HostEnv → Process → Process
unfolding rt_table_destroy aodv_socket_cleanup nl_cleanup remove_modules reset_kernel_options
    log_cleanup
cleanup h s =
    let daemon : State = (rt_table_destroy s.daemon).1 in
    record s {
      daemon = daemon;
      closed = aodv_socket_cleanup ++ nl_cleanup ++ remove_modules ++ s.closed;
      files = (reset_kernel_options h daemon.this_host.enabled s.files).1;
      removed = log_cleanup daemon.conf.rt_log_interval s.log_rt_fd s.log ++ s.removed;
    }

-- SIGINT is 2. Every signal ends the program with exit(0); the state is the last one.
unfoldable pub signal_handler : HostEnv → ℕ → Process → Process
unfolding cleanup
signal_handler h sign_no s = if sign_no == 2 then cleanup h s else s

-- set_kernel_options succeeds just when the model of its writes does.
pub options_set-result :
    (h : HostEnv) (enabled : Bool) (files : Sysctl)
    → (options_set h enabled files).0 ≡ set_kernel_options h enabled
unfolding options_set write_files set_kernel_options
options_set-result h enabled files = ground arith

-- Where every file can be written, reset_kernel_options after set_kernel_options leaves forwarding on and
-- the acceptance of redirects off for all interfaces, whatever these were before.
pub reset-after-set :
    (h : HostEnv) (files : Sysctl)
    → ((f : ProcFile) → h.write f ≡ true)
    → let after = (reset_kernel_options h true (options_set h true files).1).1 in
      (after ip_forward ≡ true)
      × (after all_accept_redirects ≡ false)
      × (after if_accept_redirects ≡ true)
      × (after if_send_redirects ≡ true)
      × (after all_send_redirects ≡ true)
unfolding options_set reset_kernel_options write_files ProcFile-discrete
reset-after-set h files w =
    rw
      (
        w ip_forward,
        w if_send_redirects,
        w if_accept_redirects,
        w all_send_redirects,
        w all_accept_redirects,
      )
      (refl, refl, refl, refl, refl)
