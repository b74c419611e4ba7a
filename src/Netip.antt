-- ===== src/Netip.antt =====
-- netip.Addr, and the way from it through its text to a net.IP.
use zonedns.Prelude.{ℕ, ◌+◌, ◌*◌}
use zonedns.Prelude.{
  ◌/◌, ◌%◌, ◌^◌, ◌≡◌, refl, ◌↔◌, Bool, true, false, ◌&&◌, Option, none, some, [], arith, ◌==◌,
  if◌then◌else◌, nat_beq, nat_eq, Eq, eq_iff,
}
use zonedns.Text.{Str, str_beq, str_eq}

-- `invalid` is the zero Addr; an IPv6 address has a scope zone, mostly the empty one.
pub data Addr : Type 0 where
  invalid : Addr
  v4 : (bits : ℕ) → Addr
  v6 : (bits : ℕ) (scope : Str) → Addr

unfoldable pub addr_beq : Addr → Addr → Bool
addr_beq invalid invalid = true
addr_beq (v4 a) (v4 b) = nat_beq a b
addr_beq (v6 a s) (v6 b t) = nat_beq a b && str_beq s t
addr_beq _ _ = false

addr_beq-eq : (a b : Addr) → addr_beq a b ≡ true → a ≡ b
unfolding addr_beq
addr_beq-eq invalid invalid h = refl
addr_beq-eq (v4 a) (v4 b) h = ground arith
addr_beq-eq (v6 a s) (v6 b t) h = ground (arith, eq_iff s t)
addr_beq-eq _ _ h = cc

addr_beq_self : (a : Addr) → addr_beq a a ≡ true
unfolding addr_beq
addr_beq_self invalid = refl
addr_beq_self (v4 a) = ground arith
addr_beq_self (v6 a s) = ground (arith, eq_iff s s)

pub addr_beq_iff : (a b : Addr) → (addr_beq a b ≡ true) ↔ (a ≡ b)
addr_beq_iff a b = (addr_beq-eq a b, λ e. rw e (addr_beq_self b))

instance abbrev pub addr_eq : Eq Addr
addr_eq = record { same = addr_beq; same_iff = addr_beq_iff }

-- Addr.IsValid
abbrev pub is_valid : Addr → Bool
is_valid invalid = false
is_valid _ = true

-- net.IP as net.ParseIP returns it: 4 bytes stand for the same address in the range ::ffff:0:0/96.
pub data Ip : Type 0 where
  nil_ip : Ip
  ip4 : (bits : ℕ) → Ip
  ip16 : (bits : ℕ) → Ip

-- net.ParseIP of Addr.String: ParseIP knows no scope zone, nor the text "invalid IP".
unfoldable pub parse_ip : Addr → Ip
parse_ip invalid = nil_ip
parse_ip (v4 bits) = ip4 bits
parse_ip (v6 bits scope) =
    if scope == []
    then (if bits / 2 ^ 32 == 0xffff then ip4 (bits % 2 ^ 32) else ip16 bits)
    else nil_ip

-- IP.To4, none for nil.
unfoldable pub to4 : Ip → Option ℕ
to4 (ip4 bits) = some bits
to4 _ = none

-- IP.To16, of an address that is no IPv4 address.
unfoldable pub to16 : Ip → Option ℕ
to16 (ip16 bits) = some bits
to16 (ip4 bits) = some (0xffff * 2 ^ 32 + bits)
to16 nil_ip = none
