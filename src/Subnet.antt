-- ===== src/Subnet.antt =====
-- subnet/allocator.go: addresses of a version 4 subnet, given out one call at a time. An address is its
-- four bytes. `listens` says whether a TCP listener can be bound to an address: net.ListenTCP. The sets
-- `taken` and `bound` are lists of words; the alias command of macOS is left out.
pub mod Fresh
mod Tests
use Prim.Native.Nat.{bit_and, bit_or}
use pmesh.Base.{
  ℕ, zero, suc, ◌+◌, ◌-◌, ◌*◌, ◌/◌, ◌%◌, ◌^◌, Bool, true, false, not, ◌&&◌, ◌||◌, Option, none,
  some, List, [], ◌∷◌, ◌==◌, if◌then◌else◌,
}

pub record Address : Type 0 where
  pub b0 : ℕ
  pub b1 : ℕ
  pub b2 : ℕ
  pub b3 : ℕ

pub record Allocator : Type 0 where
  pub network : Address
  pub mask : Address
  pub step : ℕ
  pub paranoid : Bool
  pub taken : List ℕ
  pub bound : List ℕ

-- `NewAllocator` behind the parsing of the CIDR.
unfoldable pub new_allocator : Address → Address → Bool → Allocator
new_allocator network mask paranoid = record {
  network = network;
  mask = mask;
  step = 1;
  paranoid = paranoid;
  taken = [];
  bound = [];
}

-- `ipToU32`, in little-endian order
unfoldable pub ip_to_u32 : Address → ℕ
ip_to_u32 a = a.b0 + a.b1 * 2 ^ 8 + a.b2 * 2 ^ 16 + a.b3 * 2 ^ 24

unfoldable pub member : ℕ → List ℕ → Bool
member r [] = false
member r (x ∷ s) = x == r || member r s

unfoldable pub without : ℕ → List ℕ → List ℕ
without r [] = []
without r (x ∷ s) = let rest = without r s in if x == r then rest else x ∷ rest

-- `Deallocate`
unfoldable pub deallocate : Allocator → Address → Allocator
deallocate a ip = record a { taken = without (ip_to_u32 ip) a.taken }

-- `r[j] &= ^mask[j]; r[j] |= ip[j]`
unfoldable pub masked : ℕ → ℕ → ℕ → ℕ
masked r mask ip = bit_or (bit_and r (255 - mask)) ip

-- `Generate`: the allocator behind it, and the address.
unfoldable pub generate : Allocator → Allocator × Address
generate a =
    let next = (a.step + 1) % 2 ^ 32 in
    (
      record a { step = next },
      record {
        b0 = masked (next / 2 ^ 24 % 256) a.mask.b0 a.network.b0;
        b1 = masked (next / 2 ^ 16 % 256) a.mask.b1 a.network.b1;
        b2 = masked (next / 2 ^ 8 % 256) a.mask.b2 a.network.b2;
        b3 = masked (next % 256) a.mask.b3 a.network.b3;
      },
    )

abbrev pub insert : ℕ → List ℕ → List ℕ
insert r s = if member r s then s else r ∷ s

-- One round of `Allocate`: the address, if it is given out.
unfoldable pub attempt : (Address → Bool) → Allocator → Allocator × Option Address
attempt listens a =
    let (d, ip) = generate a in
    let r = ip_to_u32 ip in
    (
      record d { taken = insert r a.taken; bound = insert r a.bound },
      if member r a.taken then none else if a.paranoid && not (listens ip) then none else some ip,
    )

-- The rounds that are left.
unfoldable pub allocate_loop : (Address → Bool) → ℕ → Allocator → Allocator × Option Address
allocate_loop listens zero a = (a, none)
allocate_loop listens (suc n) a =
    let (d, result) = attempt listens a in
    elim result [ none ↦ allocate_loop listens n d | some ip ↦ (d, some ip) ]

-- `Allocate`; `none` is the error.
unfoldable pub allocate : (Address → Bool) → Allocator → Allocator × Option Address
allocate listens a = allocate_loop listens 64 a
