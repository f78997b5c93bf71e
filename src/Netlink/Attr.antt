-- ===== src/Netlink/Attr.antt =====
-- nl.c: addattr, which appends an attribute to a message, and nl_rt_callback. The macros of
-- linux/netlink.h and linux/rtnetlink.h are parameters: NLMSG_ALIGN, NLMSG_LENGTH and RTA_LENGTH.
use aodv.Base.{ℕ, ◌+◌, ◌<◌, ◌≡◌, refl, List, [], ◌∷◌, length, ◌==◌, if◌then◌else◌, arith}

-- A struct rtattr with its data, at its offset from the start of the message.
pub record Rtattr : Type 0 where
  pub at : ℕ
  pub rta_type : ℕ
  pub rta_len : ℕ
  pub rta_data : List ℕ

-- The buffer of a message: the length that its header says, and the attributes in it, the latest first.
pub record NlBuf : Type 0 where
  pub nlmsg_len : ℕ
  pub attrs : List Rtattr

module _ (nlmsg_align nlmsg_length rta_length : ℕ → ℕ) where
  unfoldable pub addattr : ℕ → List ℕ → NlBuf → NlBuf
  addattr type bytes n =
      let len : ℕ = rta_length (length bytes) in
      record {
        nlmsg_len = nlmsg_align n.nlmsg_len + len;
        attrs =
            record {
              at = nlmsg_length n.nlmsg_len;
              rta_type = type;
              rta_len = len;
              rta_data = bytes;
            }
            ∷ n.attrs;
      }

  -- The attribute that addattr has appended is cut off: it starts later than the message's length makes
  -- room for, by what NLMSG_LENGTH adds over NLMSG_ALIGN, and ends so much behind the message's end. It is
  -- so wherever NLMSG_LENGTH, which adds the length of a header, gives more than NLMSG_ALIGN.
  pub addattr-cut :
      (type : ℕ) (bytes : List ℕ) (n : NlBuf)
      → nlmsg_align n.nlmsg_len < nlmsg_length n.nlmsg_len
      → let n' = addattr type bytes n in
        (a : Rtattr) × (n'.attrs ≡ a ∷ n.attrs)
        × (nlmsg_align n.nlmsg_len < a.at)
        × (n'.nlmsg_len < a.at + a.rta_len)
  unfolding addattr
  addattr-cut type bytes n h = (_, refl, h, omega (arith, h))

-- What the callback of the rtnetlink socket reads: the kinds of message that it tells apart, with the
-- attributes of a new address as the macros RTA_OK and RTA_NEXT give them.
pub data RtMsg : Type 0 where
  nlmsg_error : (error type : ℕ) → RtMsg
  rtm_newlink rtm_newroute : RtMsg
  rtm_newaddr : (ifa_index : ℕ) (attrs : List (ℕ × ℕ)) → RtMsg
  other_type : RtMsg

-- The lines that it logs. The pointer `nlmerr` is tested where its error is meant, so an
-- acknowledgement is logged as an error too.
pub data RtNotice : Type 0 where
  error_notice : (error type : ℕ) → RtNotice
  newaddr_notice newroute_notice unknown_notice : RtNotice
  changed_address : (ifa_index addr : ℕ) → RtNotice

-- IFA_ADDRESS is 1.
unfoldable pub addresses_of : ℕ → List (ℕ × ℕ) → List RtNotice
addresses_of ifa_index [] = []
addresses_of ifa_index ((type, addr) ∷ l) =
    let rest : List RtNotice = addresses_of ifa_index l in
    if type == 1 then changed_address ifa_index addr ∷ rest else rest

unfoldable pub nl_rt_callback : RtMsg → List RtNotice
unfolding addresses_of
nl_rt_callback (nlmsg_error error type) = error_notice error type ∷ []
nl_rt_callback rtm_newlink = newaddr_notice ∷ []
nl_rt_callback rtm_newroute = newroute_notice ∷ []
nl_rt_callback (rtm_newaddr ifa_index attrs) = addresses_of ifa_index attrs
nl_rt_callback other_type = unknown_notice ∷ []
