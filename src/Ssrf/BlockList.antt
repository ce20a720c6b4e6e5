-- ===== src/Ssrf/BlockList.antt =====
-- core/ssrf/host-validator.ts: the block list, its exceptions, and the addresses that it blocks.
-- An IP literal is its number.
use probeboard_api.Common.{
  ℕ, ◌+◌, ◌-◌, ◌*◌, ◌/◌, ◌%◌, ◌^◌, Bool, false, ◌&&◌, ◌||◌, List, [], ◌∷◌, ◌++◌, ◌==◌,
  if◌then◌else◌,
}

pub data Address : Type 0 where
  ipv4 ipv6 : ℕ → Address

-- A rule of a `net.BlockList`: the first address of a subnet, and the length of its prefix.
pub data Rule : Type 0 where
  subnet4 subnet6 : ℕ → ℕ → Rule

-- Four octets, and eight groups, as numbers.
abbrev pub v4 : ℕ → ℕ → ℕ → ℕ → ℕ
v4 a b c d = ((a * 256 + b) * 256 + c) * 256 + d

abbrev pub v6 : ℕ → ℕ → ℕ → ℕ → ℕ → ℕ → ℕ → ℕ → ℕ
v6 a b c d e f g h =
    ((((((a * 65536 + b) * 65536 + c) * 65536 + d) * 65536 + e) * 65536 + f) * 65536 + g) * 65536
    + h

-- `addAddress` is a subnet of one address.
abbrev pub address4 : ℕ → Rule
address4 a = subnet4 a 32

abbrev pub address6 : ℕ → Rule
address6 a = subnet6 a 128

unfoldable pub same_prefix : ℕ → ℕ → ℕ → ℕ → Bool
same_prefix width net prefix a = a / 2 ^ (width - prefix) == net / 2 ^ (width - prefix)

-- `::ffff:a.b.c.d`, which a `BlockList` also holds against its IPv4 rules.
abbrev pub mapped : ℕ → Bool
mapped a = a / 2 ^ 32 == 0xffff

unfoldable pub rule_matches : Rule → Address → Bool
unfolding same_prefix
rule_matches (subnet4 net prefix) (ipv4 a) = same_prefix 32 net prefix a
rule_matches (subnet4 net prefix) (ipv6 a) = mapped a && same_prefix 32 net prefix (a % 2 ^ 32)
rule_matches (subnet6 net prefix) (ipv6 a) = same_prefix 128 net prefix a
rule_matches (subnet6 net prefix) (ipv4 a) = same_prefix 128 net prefix (0xffff * 2 ^ 32 + a)

-- `BlockList.check`.
unfoldable pub check : List Rule → Address → Bool
unfolding rule_matches
check [] a = false
check (r ∷ rules) a = rule_matches r a || check rules a

unfoldable pub block_list4 : List Rule
block_list4 =
    subnet4 (v4 127 0 0 0) 8
    ∷ subnet4 (v4 10 0 0 0) 8
    ∷ subnet4 (v4 172 16 0 0) 12
    ∷ subnet4 (v4 192 168 0 0) 16
    ∷ subnet4 (v4 169 254 0 0) 16
    ∷ subnet4 (v4 100 64 0 0) 10
    ∷ subnet4 (v4 198 18 0 0) 15
    ∷ subnet4 (v4 224 0 0 0) 4
    ∷ subnet4 (v4 240 0 0 0) 4
    ∷ subnet4 (v4 0 0 0 0) 8
    ∷ address4 (v4 100 100 100 200)
    ∷ subnet4 (v4 192 0 0 0) 24
    ∷ subnet4 (v4 192 0 2 0) 24
    ∷ subnet4 (v4 198 51 100 0) 24
    ∷ subnet4 (v4 203 0 113 0) 24
    ∷ subnet4 (v4 192 88 99 0) 24
    ∷ []

unfoldable pub block_list6 : List Rule
block_list6 =
    address6 (v6 0 0 0 0 0 0 0 1)
    ∷ address6 (v6 0 0 0 0 0 0 0 0)
    ∷ subnet6 (v6 0xfc00 0 0 0 0 0 0 0) 7
    ∷ subnet6 (v6 0xfe80 0 0 0 0 0 0 0) 10
    ∷ subnet6 (v6 0xfec0 0 0 0 0 0 0 0) 10
    ∷ subnet6 (v6 0 0 0 0 0 0 0 0) 96
    ∷ address6 (v6 0xfd00 0xec2 0 0 0 0 0 0x254)
    ∷ subnet6 (v6 0x64 0xff9b 0 0 0 0 0 0) 96
    ∷ subnet6 (v6 0x64 0xff9b 1 0 0 0 0 0) 48
    ∷ subnet6 (v6 0xff00 0 0 0 0 0 0 0) 8
    ∷ subnet6 (v6 0 0 0 0 0xffff 0 0 0) 96
    ∷ subnet6 (v6 0x2002 0 0 0 0 0 0 0) 16
    ∷ subnet6 (v6 0x2001 0 0 0 0 0 0 0) 23
    ∷ subnet6 (v6 0x2001 0xdb8 0 0 0 0 0 0) 32
    ∷ subnet6 (v6 0x3fff 0 0 0 0 0 0 0) 20
    ∷ subnet6 (v6 0x5f00 0 0 0 0 0 0 0) 16
    ∷ subnet6 (v6 0x100 0 0 0 0 0 0 0) 64
    ∷ subnet6 (v6 0x100 0 0 1 0 0 0 0) 64
    ∷ []

unfoldable pub block_list : List Rule
unfolding block_list4 block_list6
block_list = block_list4 ++ block_list6

unfoldable pub global_exceptions : List Rule
global_exceptions =
    address4 (v4 192 0 0 9)
    ∷ address4 (v4 192 0 0 10)
    ∷ address6 (v6 0x2001 1 0 0 0 0 0 1)
    ∷ address6 (v6 0x2001 1 0 0 0 0 0 2)
    ∷ address6 (v6 0x2001 1 0 0 0 0 0 3)
    ∷ subnet6 (v6 0x2001 3 0 0 0 0 0 0) 32
    ∷ subnet6 (v6 0x2001 4 0x112 0 0 0 0 0) 48
    ∷ subnet6 (v6 0x2001 0x20 0 0 0 0 0 0) 28
    ∷ subnet6 (v6 0x2001 0x30 0 0 0 0 0 0) 28
    ∷ []

unfoldable pub is_blocked_address : Address → Bool
unfolding check block_list global_exceptions
is_blocked_address a = if check global_exceptions a then false else check block_list a
