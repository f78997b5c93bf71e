-- ===== src/Protocol/Start.antt =====
-- main.c, nl.c and aodv_socket.c: from the start of the daemon to its main loop. An exit(-1) is `none`.
use aodv.Base.{
  ℕ, zero, suc, ◌*◌, Bool, true, false, ◌&&◌, Option, none, some, List, [], ◌∷◌, ◌++◌, length, ltb,
  leb, not, ◌||◌, ◌==◌, if◌then◌else◌,
}
use aodv.Timer.{Timers, zero_time, null_handler}
use aodv.Msg
use aodv.Node.{State, Env, Settings, gettimeofday}
use aodv.Socket.Limit.{no_stamps}
use aodv.Netlink.{nl_send_conf_msg}
use aodv.Routing.Table.{rt_table_init}
use aodv.Log.Routes.{log_rt_table_init}

-- The files below /proc/sys/net/ipv4 that set_kernel_options writes: those of the interface and of all.
pub data ProcFile : Type 0 where
  ip_forward if_send_redirects if_accept_redirects : ProcFile
  all_send_redirects all_accept_redirects : ProcFile

-- What the operating system answers: the effective user, whether the two log files are opened, the four
-- requests about the interface, whether insmod runs, which files can be written, whether each of the netlink sockets is opened, bound and named, whether the UDP
-- socket is opened and bound and takes its options, and which sizes of the receive buffer it takes.
pub record HostEnv : Type 0 where
  pub geteuid : ℕ
  pub open_log : Bool
  pub open_rt_log : Bool
  pub siocgifindex : Option ℕ
  pub siocgifaddr : Option ℕ
  pub siocgifnetmask : Option ℕ
  pub siocgifbrdaddr : Option ℕ
  pub insmod : Bool
  pub write : ProcFile → Bool
  pub aodvnl : Bool
  pub rtnl : Bool
  pub udp : Bool
  pub so_rcvbuf : ℕ → Bool

-- The functions that the main loop calls for a descriptor: nl_kaodv_callback, nl_rt_callback and aodv_socket_read.
pub data Callback : Type 0 where
  kaodv_callback rt_callback socket_read : Callback

-- The globals, with `callbacks` of main.c.
pub record Started : Type 0 where
  pub state : State
  pub callbacks : List Callback

-- CALLBACK_FUNCS
abbrev pub callback_funcs : ℕ
callback_funcs = 3

unfoldable pub attach_callback_func : Callback → Started → Bool × Started
attach_callback_func f s =
    if leb callback_funcs (length s.callbacks)
    then (false, s)
    else (true, record s { callbacks = s.callbacks ++ f ∷ [] })

abbrev pub no_timers : Timers
no_timers = record {
  timers = λ r. record { used = false; timeout = zero_time; handler = null_handler };
  tq = [];
  exptq = [];
}

abbrev pub initial_settings : Settings
initial_settings = record {
  ratelimit = true;
  expanding_ring_search = true;
  receive_n_hellos = 0;
  local_repair = false;
  active_route_timeout = 3000;
  ttl_start = 2;
  delete_period = 15000;
  log_to_file = true;
  rt_log_interval = 10000;
}

-- The globals before main runs.
abbrev pub globals : Env → Started
globals env = record {
  state = record {
    timer = no_timers;
    rt_tbl = record { num_entries = 0; num_active = 0; tbl = λ i. [] };
    sl = [];
    rreq_records = [];
    rreq_blacklists = [];
    this_host = record {
      seqno = 0;
      rreq_id = 0;
      last_forward_time = zero_time;
      last_broadcast_time = zero_time;
      enabled = false;
      ifindex = 0;
      ipaddr = 0;
      broadcast = 0;
    };
    conf = initial_settings;
    wait_on_reboot = true;
    send_buf = Msg.blank;
    rreq_limit = no_stamps;
    rerr_limit = no_stamps;
    aodvnl_seqno = 0;
    rtnl_seqno = 0;
    env = env;
    reads = 0;
    sent = [];
    nl_sent = [];
    rt_log = [];
  };
  callbacks = [];
}

-- The next step on what a step gives, and exit(-1) on `none`.
abbrev pub or_exit : {A B : Type 0} → Option A → (A → Option B) → Option B
or_exit none f = none
or_exit (some a) f = f a

-- `true` is 0, `false` is -1.
unfoldable pub set_kernel_options : HostEnv → Bool → Bool
set_kernel_options h enabled =
    h.write ip_forward
    && enabled
    && h.write if_send_redirects
    && h.write if_accept_redirects
    && h.write all_send_redirects
    && h.write all_accept_redirects

-- With the name of an interface, as main calls it.
unfoldable pub host_init : HostEnv → Started → Option Started
unfolding gettimeofday set_kernel_options
host_init h s =
    let (now, t) = gettimeofday s.state in
    or_exit h.siocgifindex (λ ifindex. or_exit h.siocgifaddr (λ ipaddr.
      or_exit h.siocgifnetmask (λ netmask. or_exit h.siocgifbrdaddr (λ broadcast.
        if h.insmod && set_kernel_options h true
        then some (record s {
          state = record t {
            this_host = record {
              seqno = 0;
              rreq_id = 0;
              last_forward_time = zero_time;
              last_broadcast_time = now;
              enabled = true;
              ifindex = ifindex;
              ipaddr = ipaddr;
              broadcast = broadcast;
            };
          };
        })
        else none))))

-- A callback that finds no room is only logged.
unfoldable pub nl_init : HostEnv → Started → Option Started
unfolding attach_callback_func
nl_init h s =
    if h.aodvnl
    then (let s1 : Started =
          (attach_callback_func kaodv_callback
            (record s { state = record (s.state) { aodvnl_seqno = 0 } })).1 in
        if h.rtnl
        then some
            (attach_callback_func rt_callback
              (record s1 { state = record (s1.state) { rtnl_seqno = 0 } })).1
        else none)
    else none

-- SOCK_RECVBUF_SIZE in steps of 1024, and RECE_BUF_SIZE
abbrev pub sock_recvbuf_steps : ℕ
sock_recvbuf_steps = 256

abbrev pub rece_buf_size : ℕ
rece_buf_size = 1024

-- The loop over the sizes of the receive buffer, with `n` steps of 1024 bytes left: the size that is taken.
unfoldable pub set_rcvbuf : HostEnv → ℕ → Option ℕ
set_rcvbuf h zero = if h.so_rcvbuf 0 then some 0 else none
set_rcvbuf h (suc n) =
    let smaller : Option ℕ = set_rcvbuf h n in
    let bufsize : ℕ = suc n * 1024 in
    if h.so_rcvbuf bufsize
    then some bufsize
    else if ltb bufsize rece_buf_size
    then none
    else smaller

unfoldable pub aodv_socket_init : HostEnv → Started → Option Started
unfolding set_rcvbuf attach_callback_func
aodv_socket_init h s =
    if s.state.this_host.enabled && h.udp
    then or_exit (set_rcvbuf h sock_recvbuf_steps) (λ bufsize.
      let (ok, s') = attach_callback_func socket_read s in
      if ok
      then some (record s' {
        state = record (s'.state) { rreq_limit = no_stamps; rerr_limit = no_stamps };
      })
      else none)
    else none

-- A function of the daemon's state.
abbrev pub on_state : (State → State) → Started → Started
on_state f s = record s { state = f s.state }

-- log_init of debug.c: `false` is an exit(-1).
unfoldable pub log_init : HostEnv → Settings → Bool
log_init h conf =
    (not conf.log_to_file || h.open_log) && (conf.rt_log_interval == 0 || h.open_rt_log)

-- log_rt_table_init and rt_table_init.
unfoldable pub init_tables : Env → Started
unfolding log_rt_table_init rt_table_init
init_tables env = on_state (λ t. (rt_table_init (log_rt_table_init t).1).1) (globals env)

-- main, up to its loop.
unfoldable pub start : HostEnv → Env → Option Started
unfolding log_init init_tables host_init nl_init nl_send_conf_msg aodv_socket_init
start h env =
    if h.geteuid == 0 && log_init h initial_settings
    then or_exit (host_init h (init_tables env)) (λ s1.
      or_exit (nl_init h s1) (λ s2. aodv_socket_init h (on_state (λ t. (nl_send_conf_msg t).1) s2)))
    else none
