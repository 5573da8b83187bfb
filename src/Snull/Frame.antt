-- ===== src/Snull/Frame.antt =====
-- What the driver does to frames (snull/snull.c): the addresses and the checksum that `snull_hw_tx`
-- rewrites, and the Ethernet headers.
pub mod Rewrite
pub mod Header
use device_drivers_lab_proje.Prelude.{
  ℕ, ◌+◌, ◌-◌, ◌*◌, ◌/◌, ◌%◌, ◌^◌, Bool, Option, none, some, List, [], ◌∷◌, ◌++◌, if◌then◌else◌,
  ◌==◌, leb, length, get_or, set, drop, replicate, codes,
}

-- `x ^= 1`
abbrev pub xor_1 : ℕ → ℕ
xor_1 x = if x % 2 == 0 then x + 1 else x - 1

-- The third octets of the source and of the destination address, behind 14 bytes of Ethernet header
-- and 12 or 16 of the IP header.
abbrev pub source_octet : ℕ
source_octet = 28

abbrev pub dest_octet : ℕ
dest_octet = 32

abbrev pub flip_at : ℕ → List ℕ → List ℕ
flip_at i frame = set frame i (xor_1 (get_or frame i 0))

-- `ih->check`, two bytes.
abbrev pub with_check : ℕ × ℕ → List ℕ → List ℕ
with_check c frame = set (set frame 24 c.0) 25 c.1

-- `ih->ihl`, the lower half of the header's first byte.
abbrev pub ihl : List ℕ → ℕ
ihl frame = get_or frame 14 0 % 16

-- Whether the frame has all the words of the IP header that `ihl` says, which `ip_fast_csum` reads.
abbrev pub holds_header : List ℕ → Bool
holds_header frame = leb (14 + 4 * ihl frame) (length frame)

-- For a frame that holds its header: the checksum is one of the frame's bytes.
unfoldable pub rewrite_frame : (List ℕ → ℕ → ℕ × ℕ) → List ℕ → List ℕ
rewrite_frame ip_fast_csum frame =
    let bare = with_check (0, 0) (flip_at dest_octet (flip_at source_octet frame)) in
    with_check (ip_fast_csum (drop 14 bare) (ihl bare)) bare

-- The frame that `snull_tx` gives to the hardware: at least `ETH_ZLEN` bytes.
unfoldable pub padded : List ℕ → List ℕ
padded frame = frame ++ replicate (60 - length frame) 0

-- The address of a device: "\0SNUL0", its last byte one more on the second.
abbrev pub snull_addr : Bool → List ℕ
snull_addr second =
    let base = 0 ∷ codes "SNUL0" in if second then set base 5 (get_or base 5 0 + 1) else base

-- `eth->h_dest[ETH_ALEN-1] ^= 0x01`
abbrev pub twin_addr : List ℕ → List ℕ
twin_addr addr = flip_at 5 addr

abbrev pub given_or : Option (List ℕ) → List ℕ → List ℕ
given_or none own = own
given_or (some a) own = a

-- The header pushed in front of a packet: destination, source, and the type in network order.
unfoldable pub snull_header : List ℕ → List ℕ → ℕ → Option (List ℕ) → Option (List ℕ) → List ℕ
snull_header dev_addr packet type daddr saddr =
    twin_addr (given_or daddr dev_addr)
    ++ (given_or saddr dev_addr ++ ((type / 256 % 256) ∷ (type % 256) ∷ packet))

-- The first 12 bytes of a frame that starts with a header.
unfoldable pub snull_rebuild_header : List ℕ → List ℕ → List ℕ
snull_rebuild_header dev_addr frame = twin_addr dev_addr ++ (dev_addr ++ drop 12 frame)
