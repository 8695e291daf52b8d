-- ===== src/Subnet/Fresh.antt =====
-- What `Allocate` of subnet/allocator.go gives out.
use pmesh.Base.{
  ℕ, zero, suc, ◌≡◌, refl, sym, ◌∙◌, ap, Bool, true, false, not, ◌&&◌, ◌||◌, some, List, [], ◌∷◌,
  ◌==◌, arith, Bool-cases, Option-cases, inl, inr,
}
use pmesh.Subnet.{
  Address, Allocator, ip_to_u32, member, without, deallocate, generate, attempt, allocate_loop,
  allocate, insert, without,
}

member-insert : (r x : ℕ) (s : List ℕ) → member x (insert r s) ≡ (r == x || member x s)
unfolding member
member-insert r x s = elim (Bool-cases (member r s)) [
  | inl there ↦ elim (Bool-cases (r == x)) [
    | inl hit ↦
        let same : r ≡ x = ground arith in
        let found : member x s ≡ true = ap (λ (t : ℕ). member t s) (sym same) ∙ there in
        rw (there, hit) found
    | inr miss ↦ rw (there, miss) refl
  ]
  | inr new ↦ rw new refl
]

attempt-taken :
    (listens : Address → Bool) (a : Allocator) (x : ℕ)
    → member x (attempt listens a).0.taken ≡ (ip_to_u32 (generate a).1 == x || member x a.taken)
unfolding attempt generate
attempt-taken listens a x = member-insert (ip_to_u32 (generate a).1) x a.taken

attempt-some :
    (listens : Address → Bool) (a : Allocator) (ip : Address)
    → (attempt listens a).1 ≡ some ip
    → ((generate a).1 ≡ ip)
      × (member (ip_to_u32 (generate a).1) a.taken ≡ false)
      × ((a.paranoid && not (listens (generate a).1)) ≡ false)
unfolding attempt
attempt-some listens a ip h = elim (Bool-cases (member (ip_to_u32 (generate a).1) a.taken)) [
  | inl there ↦ ground arith
  | inr new ↦ elim (Bool-cases (a.paranoid && not (listens (generate a).1))) [
    | inl refused ↦ ground arith
    | inr accepted ↦ (ground arith, new, accepted)
  ]
]

attempt-paranoid :
    (listens : Address → Bool) (a : Allocator) → (attempt listens a).0.paranoid ≡ a.paranoid
unfolding attempt generate
attempt-paranoid listens a = refl

loop_fresh :
    (listens : Address → Bool) (n : ℕ) (a : Allocator) (ip : Address)
    → (allocate_loop listens n a).1 ≡ some ip
    → (member (ip_to_u32 ip) a.taken ≡ false)
      × (member (ip_to_u32 ip) (allocate_loop listens n a).0.taken ≡ true)
      × ((a.paranoid && not (listens ip)) ≡ false)
unfolding allocate_loop
loop_fresh listens zero a ip h = ground arith
loop_fresh listens (suc n) a ip h = elim (Option-cases (attempt listens a).1) [
  | inl again ↦
      let ih = loop_fresh listens n (attempt listens a).0 ip (ground arith) in
      let later = attempt-taken listens a (ip_to_u32 ip) in
      (
        ground arith,
        rw (again, allocate_loop) ih.1,
        ap (λ (p : Bool). p && not (listens ip)) (sym (attempt-paranoid listens a)) ∙ ih.2,
      )
  | inr (got, given) ↦
      let same : got ≡ ip = ground arith in
      let p = attempt-some listens a got given in
      let eq : (generate a).1 ≡ ip = p.0 ∙ same in
      (
        ap (λ (x : Address). member (ip_to_u32 x) a.taken) (sym eq) ∙ p.1,
        rw (given, allocate_loop)
            (attempt-taken listens a (ip_to_u32 ip)
              ∙ ap (λ (x : Address). ip_to_u32 x == ip_to_u32 ip || member (ip_to_u32 ip) a.taken)
                  eq
              ∙ ground arith),
        ap (λ (x : Address). a.paranoid && not (listens x)) (sym eq) ∙ p.2,
      )
]

-- What `Allocate` gives out was not taken before and is taken afterwards, and where the allocator is
-- paranoid, a listener could be bound to it.
pub allocate_fresh :
    (listens : Address → Bool) (a : Allocator) (ip : Address)
    → (allocate listens a).1 ≡ some ip
    → (member (ip_to_u32 ip) a.taken ≡ false)
      × (member (ip_to_u32 ip) (allocate listens a).0.taken ≡ true)
      × ((a.paranoid && not (listens ip)) ≡ false)
unfolding allocate
allocate_fresh listens a ip h = loop_fresh listens 64 a ip h

member-without : (r : ℕ) (s : List ℕ) → member r (without r s) ≡ false
unfolding member without
member-without r [] = refl
member-without r (x ∷ s) = ground (arith, member-without r s)

-- A returned address can be given out again: it is no longer taken.
pub deallocate-free :
    (a : Allocator) (ip : Address) → member (ip_to_u32 ip) (deallocate a ip).taken ≡ false
unfolding deallocate
deallocate-free a ip = member-without (ip_to_u32 ip) a.taken
