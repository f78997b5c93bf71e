-- ===== src/Kaodv/Roundtrip.antt =====
-- kaodv_ipenc.c: a packet that was encapsulated comes out of it as it was.
use aodv.Base.{
  ℕ, ◌+◌, ◌-◌, ◌*◌, ◌/◌, ◌%◌, ◌<◌, ◌≡◌, ap₂, List, ◌++◌, arith, Bool-cases, inl, inr, ◌==◌,
}
use aodv.Kaodv.Defs.{Iphdr, SkBuff, Kernel}
use aodv.Kaodv.Ipenc.{
  ipenc_size, u16, MinIpencHdr, ipenc_bytes, read_ipenc, ip_send_check, shorts, ip_csum,
  ipproto_mipe, encapsulated, ip_pkt_decapsulate,
}

-- Four bytes of a number below 2^32.
word_bytes :
    (n : ℕ)
    → n < 4294967296
    → ((n / 16777216) % 256) * 16777216
        + ((n / 65536) % 256) * 65536
        + ((n / 256) % 256) * 256
        + n % 256
      ≡ n
word_bytes n h = omega (arith, h)

read-bytes :
    (h : MinIpencHdr) (l : List ℕ)
    → h.protocol < 256
    → h.daddr < 4294967296
    → read_ipenc (ipenc_bytes h ++ l) ≡ (h.protocol, h.daddr)
unfolding ipenc_bytes
read-bytes h l p d = ap₂ (λ (a b : ℕ). (a, b)) (omega (arith, p)) (word_bytes h.daddr d)

-- The length goes up by the header's and down again.
length_back : (n : ℕ) → n + 8 < 65536 → u16 (u16 (n + 8) + 65536 - 8) ≡ n
length_back n h = omega (arith, h)

-- The header that ip_pkt_encapsulate computes the checksum of.
abbrev sent_header : Kernel → SkBuff → ℕ → Iphdr
sent_header k skb dest = ip_send_check k (record (skb.iph) {
  daddr = dest;
  protocol = ipproto_mipe;
  tot_len = u16 (skb.iph.tot_len + ipenc_size);
})

-- ip_pkt_decapsulate undoes ip_pkt_encapsulate: the packet has its bytes, protocol, address, length and
-- every other field of its header again, but for the identification, which is the one that ip_pkt_encapsulate
-- gave it if it had none, and the checksum, which ip_send_check computes for that header. It is so
-- for a protocol below 2^8 and an address below 2^32, when the length leaves room for the header below 2^16.
pub decapsulate-encapsulated :
    (k : Kernel) (skb : SkBuff) (dest : ℕ)
    → skb.iph.protocol < 256
    → skb.iph.daddr < 4294967296
    → skb.iph.tot_len + ipenc_size < 65536
    → ip_pkt_decapsulate k (encapsulated k skb dest) ≡ record {
      iph = ip_send_check k (record (skb.iph) { id = (encapsulated k skb dest).iph.id });
      body = skb.body;
    }
unfolding ip_pkt_decapsulate encapsulated
decapsulate-encapsulated k skb dest p d l = elim (Bool-cases (skb.iph.id == 0)) [
  | inl e ↦
      rw (e, encapsulated) (ap₂ (again (k.env.ip_select_ident (sent_header k skb dest))) inner back)
  | inr e ↦ rw (e, encapsulated) (ap₂ (again skb.iph.id) inner back)
]
  where
    again : ℕ → ℕ × ℕ → ℕ → SkBuff
    again i a n = record {
      iph = ip_send_check k (record (skb.iph) { id = i; protocol = a.0; daddr = a.1; tot_len = n });
      body = skb.body;
    }

    ipe : MinIpencHdr
    ipe = record { protocol = skb.iph.protocol; s_res = 0; check = 0; daddr = skb.iph.daddr }

    inner :
        read_ipenc
          (ipenc_bytes (record ipe { check = ip_csum (shorts (ipenc_bytes ipe)) }) ++ skb.body)
        ≡ (skb.iph.protocol, skb.iph.daddr)
    inner = read-bytes (record ipe { check = ip_csum (shorts (ipenc_bytes ipe)) }) skb.body p d

    back : u16 (u16 (skb.iph.tot_len + ipenc_size) + 65536 - ipenc_size) ≡ skb.iph.tot_len
    back = length_back skb.iph.tot_len l
