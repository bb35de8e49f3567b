-- ===== src/Net/Bytes.antt =====
-- Fields of packets: u16 and u32 in network order, a u16 stored as the machine does (low byte first),
-- and the addresses in an ethernet header. A packet is its bytes.
use njucn_lab.Common.{ℕ, ◌+◌, ◌*◌, ◌/◌, ◌%◌, ◌^◌, ◌<◌, ◌≡◌, List, [], ◌∷◌, get_or, arith}

-- htons and htonl, as the bytes that they put into memory.
abbrev pub be16 : ℕ → List ℕ
be16 n = (n / 256 % 256) ∷ (n % 256) ∷ []

abbrev pub be32 : ℕ → List ℕ
be32 n = (n / 2 ^ 24 % 256) ∷ (n / 2 ^ 16 % 256) ∷ (n / 256 % 256) ∷ (n % 256) ∷ []

-- A u16 that is stored with no htons.
abbrev pub le16 : ℕ → List ℕ
le16 n = (n % 256) ∷ (n / 256 % 256) ∷ []

-- ntohs and ntohl of the field at an offset.
abbrev pub get16 : List ℕ → ℕ → ℕ
get16 p off = get_or p off 0 * 256 + get_or p (off + 1) 0

abbrev pub get32 : List ℕ → ℕ → ℕ
get32 p off =
    ((get_or p off 0 * 256 + get_or p (off + 1) 0) * 256 + get_or p (off + 2) 0) * 256
    + get_or p (off + 3) 0

-- A field that is written and read back is the number, cut to its width.
pub get16-be16 : (n : ℕ) → n < 2 ^ 16 → get16 (be16 n) 0 ≡ n
get16-be16 n h = omega arith

pub get32-be32 : (n : ℕ) → n < 2 ^ 32 → get32 (be32 n) 0 ≡ n
get32-be32 n h = omega arith
