-- ===== src/Subnet/Tests.antt =====
-- A run of the allocator of subnet/allocator.go on 127.0.0.0/24.
use pmesh.Base.{◌≡◌, refl, Bool, true, false, not, ◌&&◌, ◌==◌, []}
use pmesh.Subnet.{
  Address, Allocator, ip_to_u32, member, masked, generate, attempt, allocate_loop, allocate,
}
use pmesh.Subnet.Fresh.{allocate_fresh}

abbrev address : Address
address = record { b0 = 127; b1 = 0; b2 = 0; b3 = 3 }

-- The first address it tries is in use.
abbrev allocator : Allocator
allocator = record {
  network = record { b0 = 127; b1 = 0; b2 = 0; b3 = 0 };
  mask = record { b0 = 255; b1 = 255; b2 = 255; b3 = 0 };
  step = 1;
  paranoid = true;
  taken = [];
  bound = [];
}

abbrev listens : Address → Bool
listens a = a.b3 == 3

allocate_fresh_example :
    (member (ip_to_u32 address) allocator.taken ≡ false)
    × (member (ip_to_u32 address) (allocate listens allocator).0.taken ≡ true)
    × ((allocator.paranoid && not (listens address)) ≡ false)
unfolding allocate allocate_loop attempt generate masked ip_to_u32 member
allocate_fresh_example = allocate_fresh listens allocator address refl
