-- ===== src/Log/Tests.antt =====
-- The log at concrete values.
use aodv.Base.{ℕ, ◌<◌, true, false, ◌≤◌, ◌≡◌, refl, length, ◌==◌, if◌then◌else◌, arith}
use aodv.Timer.{Handler}
use aodv.Log.Text.{Text, codes, rreq_flags_to_str, ptr_to_func_name, packet_type}
use aodv.Log.Address.{IpBuf, IsStr, ip_to_str, ip_to_str-last_four}

-- The texts of three addresses, as inet_ntoa gives them.
abbrev ntoa : ℕ → Text
ntoa a =
    if a == 1 then codes "10.0.0.1" else if a == 2 then codes "192.168.100.254" else codes "0.0.0.0"

ntoa-short : (a : ℕ) → length (ntoa a) < 16
ntoa-short a = ground arith

-- The buffer after three calls.
abbrev third : IpBuf
third = record { buf = λ i. 0; index = 48 }

ip_to_str-last_four_example :
    let (p, s1) = ip_to_str ntoa 1 third in
    let (q, s2) = ip_to_str ntoa 2 s1 in
    let (r, s3) = ip_to_str ntoa 3 s2 in
    let (t, s4) = ip_to_str ntoa 1 s3 in
    IsStr s4.buf p (ntoa 1)
    × IsStr s4.buf q (ntoa 2)
    × IsStr s4.buf r (ntoa 3)
    × IsStr s4.buf t (ntoa 1)
    × ((x : ℕ) → 64 ≤ x → s4.buf x ≡ 0)
    × (s4.index ≡ 48)
ip_to_str-last_four_example = ip_to_str-last_four ntoa ntoa-short third 3 1 2 3 1 (omega arith) refl

flags_example :
    rreq_flags_to_str (record { j = true; r = false; g = true; d = true; u = true }) ≡ codes "JGD"
unfolding rreq_flags_to_str
flags_example = refl

hello_send_name : ptr_to_func_name Handler.hello_send ≡ codes "Unkown function"
unfolding ptr_to_func_name
hello_send_name = refl

hello_name : packet_type (λ n. codes "0") 0 ≡ codes "Unknown packet type 0"
unfolding packet_type
hello_name = refl
