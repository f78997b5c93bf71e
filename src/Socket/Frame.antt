-- ===== src/Socket/Frame.antt =====
-- What `aodv_socket_send` leaves alone.
use aodv.Base.{ℕ, ◌≡◌, ℤ, arith}
use aodv.Node.{State, gettimeofday}
use aodv.Socket.Send.{aodv_socket_send, check_limit, pass_limit, transmit}

pub send-timer : (d l : ℕ) (t : ℤ) (s : State) → (aodv_socket_send d l t s).1.timer ≡ s.timer
unfolding aodv_socket_send check_limit transmit pass_limit gettimeofday
send-timer d l t s = ground arith

pub send-rt_tbl : (d l : ℕ) (t : ℤ) (s : State) → (aodv_socket_send d l t s).1.rt_tbl ≡ s.rt_tbl
unfolding aodv_socket_send check_limit transmit pass_limit gettimeofday
send-rt_tbl d l t s = ground arith

pub send-rreq_records :
    (d l : ℕ) (t : ℤ) (s : State) → (aodv_socket_send d l t s).1.rreq_records ≡ s.rreq_records
unfolding aodv_socket_send check_limit transmit pass_limit gettimeofday
send-rreq_records d l t s = ground arith

pub send-seqno :
    (d l : ℕ) (t : ℤ) (s : State) → (aodv_socket_send d l t s).1.this_host.seqno ≡ s.this_host.seqno
unfolding aodv_socket_send check_limit transmit pass_limit gettimeofday
send-seqno d l t s = ground arith

pub send-conf : (d l : ℕ) (t : ℤ) (s : State) → (aodv_socket_send d l t s).1.conf ≡ s.conf
unfolding aodv_socket_send check_limit transmit pass_limit gettimeofday
send-conf d l t s = ground arith

pub send-env : (d l : ℕ) (t : ℤ) (s : State) → (aodv_socket_send d l t s).1.env ≡ s.env
unfolding aodv_socket_send check_limit transmit pass_limit gettimeofday
send-env d l t s = ground arith
