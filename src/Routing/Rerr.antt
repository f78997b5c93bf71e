-- ===== src/Routing/Rerr.antt =====
-- aodv_rerr.c: rerr_create and rerr_add_udest, which build the message in `send_buf`.
use aodv.Base.{ℕ, Bool, [], ◌∷◌, ◌++◌}
use aodv.Msg.{Msg, Udest, rerr, rerr_calc_size}
use aodv.Node.{⊤, M, gets, modify, ◌>>◌}
use aodv.Socket.{aodv_socket_new_msg}

abbrev pub udest : ℕ → ℕ → Udest
udest a q = record { dest_addr = a; dest_seqno = q }

-- `n` is the flag RERR_NODELETE.
unfoldable pub rerr_create : Bool → ℕ → ℕ → M ⊤
unfolding aodv_socket_new_msg
rerr_create n dest_addr dest_seqno = do
  aodv_socket_new_msg
  modify
      λ s. record s { send_buf = rerr (record { n = n; udests = udest dest_addr dest_seqno ∷ [] }) }

abbrev pub append_udest : ℕ → ℕ → Msg → Msg
append_udest a q (rerr m) = rerr (record m { udests = m.udests ++ udest a q ∷ [] })
append_udest a q m = m

unfoldable pub rerr_add_udest : ℕ → ℕ → M ⊤
rerr_add_udest a q = modify λ s. record s { send_buf = append_udest a q s.send_buf }

-- RERR_CALC_SIZE of the message in `send_buf`.
abbrev pub calc_size : Msg → ℕ
calc_size (rerr m) = rerr_calc_size m
calc_size m = 0

abbrev pub buffer_size : M ℕ
buffer_size = gets λ s. calc_size s.send_buf
