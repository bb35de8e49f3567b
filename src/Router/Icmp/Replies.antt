-- ===== src/Router/Icmp/Replies.antt =====
-- The packets that code-exp5/ip_base.c and icmp.c make carry valid checksums.
use njucn_lab.Common.{ℕ, ◌<◌, ◌≡◌, refl, length, arith}
use njucn_lab.Net.Checksum.{checksum}
use njucn_lab.Net.Checksum.Verify.{checksum_verifies, total}
use njucn_lab.Router.Icmp.{ip_init_hdr, hdr_front, hdr_back}

-- A header that the router makes is 20 bytes long and sums up to no error.
pub ip_init_hdr_verifies :
    (id saddr daddr len proto : ℕ)
    → proto < 256
    → (length (ip_init_hdr id saddr daddr len proto) ≡ 20)
      × (checksum (ip_init_hdr id saddr daddr len proto) 0 ≡ 0)
unfolding ip_init_hdr total
ip_init_hdr_verifies id saddr daddr len proto h = (
  refl,
  checksum_verifies (hdr_front id len proto) (hdr_back saddr daddr) refl refl (omega arith)
      (omega arith),
)
