-- ===== src/Trace/Started.antt =====
-- What holds from the start of the daemon on, whatever happens to it.
use aodv.Base.{ℕ, ◌≡◌, refl, true, Option, none, some, List, subst, if-keep, arith, ◌&&◌, ◌==◌}
use aodv.Node.{State, Env, gettimeofday}
use aodv.Netlink.{nl_send_aodv, nl_send_conf_msg}
use aodv.Routing.Table.{rt_table_init}
use aodv.Routing.Store.{IsTable}
use aodv.Socket.Limit.{no_stamps}
use aodv.Socket.Bounds.{FitLimits}
use aodv.Protocol.Loop.{Event, handle_all}
use aodv.Protocol.Start.{
  HostEnv, Started, Callback, kaodv_callback, rt_callback, socket_read, attach_callback_func,
  globals, or_exit, host_init, nl_init, set_rcvbuf, sock_recvbuf_steps, aodv_socket_init, on_state,
  start, set_kernel_options, log_init, initial_settings, init_tables,
}
use aodv.Trace.Table.{init-IsTable, handle_all-IsTable}
use aodv.Log.Routes.{log_rt_table_init}
use aodv.Trace.Step.{Steps}
use aodv.Trace.Messages.{Runs-log_rt_table_init}
use aodv.Trace.Limits.{Steps-FitLimits, handle_all-FitLimits}
use aodv.Trace.Reboot.{NoRrep, IsMute, Steps-IsMute, handle_all-IsMute}

-- Every value that there is has the property.
abbrev AllSome : {A : Type 0} → (A → Type 0) → Option A → Type 0
AllSome P none = Unit
AllSome P (some a) = P a

or_exit-AllSome :
    {A B : Type 0} (P : A → Type 0) (Q : B → Type 0) (o : Option A) (f : A → Option B)
    → AllSome P o
    → ((a : A) → P a → AllSome Q (f a))
    → AllSome Q (or_exit o f)
or_exit-AllSome P Q none f p k = tt
or_exit-AllSome P Q (some a) f p k = k a p

any-AllSome : {A : Type 0} (o : Option A) → AllSome (λ (a : A). Unit {0}) o
any-AllSome none = tt
any-AllSome (some a) = tt

-- The table is in order, the rate limits fit their arrays, and no RREP goes out.
unfoldable pub IsReady : Started → Type 0
IsReady s = IsTable s.state.rt_tbl × FitLimits s.state × IsMute s.state

-- What the log's timer does to the globals is made of steps, and then the table is emptied.
tables-IsReady : (env : Env) → IsReady (init_tables env)
unfolding IsReady init_tables rt_table_init
tables-IsReady env =
    let s : State = (globals env).state in
    let t : State = (log_rt_table_init s).1 in
    let steps : Steps s t = Runs-log_rt_table_init.run s in
    let mute : IsMute t =
      Steps-IsMute steps (record { waits = refl; unending = λ r. refl; silent = tt }) in
    (
      init-IsTable t,
      Steps-FitLimits steps (
        record { counted = refl; bounded = omega arith },
        record { counted = refl; bounded = omega arith },
      ),
      record { waits = mute.waits; unending = mute.unending; silent = mute.silent },
    )

host_init-IsReady : (h : HostEnv) (s : Started) → IsReady s → AllSome IsReady (host_init h s)
unfolding host_init IsReady gettimeofday
host_init-IsReady h s p =
    or_exit-AllSome (λ _. Unit {0}) IsReady h.siocgifindex _ (any-AllSome h.siocgifindex)
      (λ a _.
        or_exit-AllSome (λ _. Unit {0}) IsReady h.siocgifaddr _ (any-AllSome h.siocgifaddr)
          (λ b _.
            or_exit-AllSome (λ _. Unit {0}) IsReady h.siocgifnetmask _
              (any-AllSome h.siocgifnetmask)
              (λ c _.
                or_exit-AllSome (λ _. Unit {0}) IsReady h.siocgifbrdaddr _
                  (any-AllSome h.siocgifbrdaddr)
                  (λ d _.
                    if-keep (AllSome IsReady) (h.insmod && set_kernel_options h true)
                      (
                        p.0,
                        p.1,
                        record { waits = p.2.waits; unending = p.2.unending; silent = p.2.silent },
                      )
                      tt))))

-- Descriptors and sequence numbers do not matter.
attach-IsReady : (f : Callback) (s : Started) → IsReady s → IsReady (attach_callback_func f s).1
unfolding attach_callback_func IsReady
attach-IsReady f s p = ground (arith, p)

numbered-IsReady :
    (a r : ℕ) (s : Started)
    → IsReady s
    → IsReady (record s { state = record (s.state) { aodvnl_seqno = a; rtnl_seqno = r } })
unfolding IsReady
numbered-IsReady a r s p =
    (p.0, p.1, record { waits = p.2.waits; unending = p.2.unending; silent = p.2.silent })

nl_init-IsReady : (h : HostEnv) (s : Started) → IsReady s → AllSome IsReady (nl_init h s)
unfolding nl_init
nl_init-IsReady h s p =
    let s0 : Started = record s { state = record (s.state) { aodvnl_seqno = 0 } } in
    let s1 : Started = (attach_callback_func kaodv_callback s0).1 in
    let p1 : IsReady s1 =
      attach-IsReady kaodv_callback s0 (numbered-IsReady 0 s.state.rtnl_seqno s p) in
    let s2 : Started = record s1 { state = record (s1.state) { rtnl_seqno = 0 } } in
    if-keep (AllSome IsReady) h.aodvnl
      (if-keep (AllSome IsReady) h.rtnl
        (attach-IsReady rt_callback s2 (numbered-IsReady s1.state.aodvnl_seqno 0 s1 p1)) tt)
      tt

conf-IsReady : (s : Started) → IsReady s → IsReady (on_state (λ t. (nl_send_conf_msg t).1) s)
unfolding IsReady nl_send_conf_msg nl_send_aodv
conf-IsReady s p =
    if-keep (λ (t : State). IsTable t.rt_tbl × FitLimits t × IsMute t) _
      (p.0, p.1, record { waits = p.2.waits; unending = p.2.unending; silent = p.2.silent })
      (p.0, p.1, record { waits = p.2.waits; unending = p.2.unending; silent = p.2.silent })

no_stamps-IsReady :
    (s : Started)
    → IsReady s
    → IsReady
        (record s { state = record (s.state) { rreq_limit = no_stamps; rerr_limit = no_stamps } })
unfolding IsReady
no_stamps-IsReady s p = (
  p.0,
  (
    record { counted = refl; bounded = omega arith },
    record { counted = refl; bounded = omega arith },
  ),
  record { waits = p.2.waits; unending = p.2.unending; silent = p.2.silent },
)

socket_init-IsReady :
    (h : HostEnv) (s : Started) → IsReady s → AllSome IsReady (aodv_socket_init h s)
unfolding aodv_socket_init
socket_init-IsReady h s p =
    let (ok, s') = attach_callback_func socket_read s in
    if-keep (AllSome IsReady) (s.state.this_host.enabled && h.udp)
      (or_exit-AllSome (λ _. Unit {0}) IsReady (set_rcvbuf h sock_recvbuf_steps) _
        (any-AllSome (set_rcvbuf h sock_recvbuf_steps))
        (λ n _.
          if-keep (AllSome IsReady) ok (no_stamps-IsReady s' (attach-IsReady socket_read s p)) tt))
      tt

start-IsReady : (h : HostEnv) (env : Env) → AllSome IsReady (start h env)
unfolding start
start-IsReady h env =
    if-keep (AllSome IsReady) (h.geteuid == 0 && log_init h initial_settings)
      (or_exit-AllSome IsReady IsReady (host_init h (init_tables env)) _
        (host_init-IsReady h _ (tables-IsReady env))
        (λ s1 p1.
          or_exit-AllSome IsReady IsReady (nl_init h s1) _ (nl_init-IsReady h s1 p1) (λ s2 p2.
            socket_init-IsReady h (on_state (λ t. (nl_send_conf_msg t).1) s2)
              (conf-IsReady s2 p2))))
      tt

-- From its start on, if it does start, and whatever datagrams, kernel messages and timer rounds come, the
-- daemon's routing table is in order, its rate limits count the stamps in their arrays, which are at
-- most ten, and it has sent no RREP.
pub started-safe :
    (h : HostEnv) (env : Env) (l : List Event) (s : Started)
    → start h env ≡ some s
    → let t = handle_all l s.state in IsTable t.rt_tbl × FitLimits t × NoRrep t.sent
unfolding IsReady
started-safe h env l s e =
    let (table, limits, mute) = subst (AllSome IsReady) e (start-IsReady h env) in
    (
      handle_all-IsTable l s.state table,
      handle_all-FitLimits l s.state limits,
      (handle_all-IsMute l s.state mute).silent,
    )
