-- ===== src/Kaodv/Ipenc.antt =====
-- kaodv_ipenc.c: minimal encapsulation. The header of eight bytes stands between the IP header and
-- what followed it; as in kaodv_ipenc.h, the machine is little-endian.
use aodv.Base.{
  ℕ, ◌+◌, ◌-◌, ◌*◌, ◌/◌, ◌%◌, Option, none, some, List, [], ◌∷◌, ◌++◌, drop, ◌==◌, if◌then◌else◌,
}
use aodv.Kaodv.Defs.{Iphdr, SkBuff, Kernel, kmalloc, log_fate, freed}

-- IPPROTO_MIPE, and sizeof(struct min_ipenc_hdr)
abbrev pub ipproto_mipe : ℕ
ipproto_mipe = 55

abbrev pub ipenc_size : ℕ
ipenc_size = 8

abbrev pub u16 : ℕ → ℕ
u16 n = n % 65536

-- struct min_ipenc_hdr; `s` and `res` are one byte.
pub record MinIpencHdr : Type 0 where
  pub protocol : ℕ
  pub s_res : ℕ
  pub check : ℕ
  pub daddr : ℕ

-- The header's bytes in memory: `check` in the machine's order, `daddr` in the network's.
unfoldable pub ipenc_bytes : MinIpencHdr → List ℕ
ipenc_bytes h =
    h.protocol % 256
    ∷ h.s_res % 256
    ∷ h.check % 256
    ∷ (h.check / 256) % 256
    ∷ (h.daddr / 16777216) % 256
    ∷ (h.daddr / 65536) % 256
    ∷ (h.daddr / 256) % 256
    ∷ h.daddr % 256
    ∷ []

-- The words that `ip_csum` adds.
abbrev pub shorts : List ℕ → List ℕ
shorts (a ∷ b ∷ l) = (a + 256 * b) ∷ shorts l
shorts _ = []

abbrev pub sum_of : List ℕ → ℕ
sum_of [] = 0
sum_of (w ∷ l) = w + sum_of l

unfoldable pub ip_csum : List ℕ → ℕ
ip_csum buf =
    let sum : ℕ = sum_of buf in
    let once : ℕ = sum / 65536 + sum % 65536 in
    let twice : ℕ = once + once / 65536 in 65535 - u16 twice

-- ip_send_check: the checksum of the header with 0 in its place.
abbrev pub ip_send_check : Kernel → Iphdr → Iphdr
ip_send_check k h = record h { check = k.env.ip_fast_csum (record h { check = 0 }) }

-- The new packet, once its memory is there. An identification of 0 is replaced last, after the checksum.
unfoldable pub encapsulated : Kernel → SkBuff → ℕ → SkBuff
unfolding ipenc_bytes ip_csum
encapsulated k skb dest =
    let ipe : MinIpencHdr = record {
      protocol = skb.iph.protocol;
      s_res = 0;
      check = 0;
      daddr = skb.iph.daddr;
    } in
    let check : ℕ = ip_csum (shorts (ipenc_bytes ipe)) in
    let iph : Iphdr = ip_send_check k (record (skb.iph) {
      daddr = dest;
      protocol = ipproto_mipe;
      tot_len = u16 (skb.iph.tot_len + ipenc_size);
    }) in
    record {
      iph = (if iph.id == 0 then record iph { id = k.env.ip_select_ident iph } else iph);
      body = ipenc_bytes (record ipe { check = check }) ++ skb.body;
    }

-- `none` is the NULL for want of memory, where the packet is freed; else the new packet stands for it.
unfoldable pub ip_pkt_encapsulate : SkBuff → ℕ → Kernel → Option SkBuff × Kernel
unfolding kmalloc encapsulated
ip_pkt_encapsulate skb dest k =
    let (ok, k') = kmalloc k in
    if ok then (some (encapsulated k' skb dest), k') else (none, log_fate (freed skb) k')

-- What ip_pkt_decapsulate reads of the header: the protocol and the address.
abbrev pub read_ipenc : List ℕ → ℕ × ℕ
read_ipenc (p ∷ s ∷ c0 ∷ c1 ∷ a ∷ b ∷ c ∷ d ∷ l) = (p, a * 16777216 + b * 65536 + c * 256 + d)
read_ipenc _ = (0, 0)

unfoldable pub ip_pkt_decapsulate : Kernel → SkBuff → SkBuff
ip_pkt_decapsulate k skb =
    let (protocol, daddr) = read_ipenc skb.body in
    record {
      iph = ip_send_check k (record (skb.iph) {
        protocol = protocol;
        daddr = daddr;
        tot_len = u16 (skb.iph.tot_len + 65536 - ipenc_size);
      });
      body = drop ipenc_size skb.body;
    }
