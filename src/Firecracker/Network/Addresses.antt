-- ===== src/Firecracker/Network/Addresses.antt =====
-- No two guests get one address, as long as there are addresses.
use cage.Common.{
  ℕ, suc, ◌+◌, ◌%◌, ◌^◌, ◌≤◌, ◌<◌, List, [], ◌∷◌, ◌++◌, ◌≡◌, ◌≢◌, refl, ap, true, Bool-cases, inl,
  inr, arith, All, map, ◌==◌, ltb, leb, length, if◌then◌else◌,
}
use cage.Firecracker.Network.{
  Ip, NetworkManager, offset_ip, ip_offset, allocate_ip, release_ip, next_offset, taken,
}

module _ {H : Type 0} (base : Ip) where
  -- The addresses that are out, over a history of the manager's calls: an address is released only
  -- by a guest that has it, and allocated only while fewer than 254 guests have one, so that there are
  -- never more than 254. The code itself does not refuse an allocation beyond that.
  pub data Leased : NetworkManager H → List Ip → Type 0 where
    fresh : (nm : NetworkManager H) → nm.next_ip ≡ 2 → nm.released ≡ [] → Leased nm []
    allocated :
        (nm : NetworkManager H) (held : List Ip)
        → Leased nm held
        → length held < 254
        → Leased (allocate_ip base nm).1 ((allocate_ip base nm).0 ∷ held)
    freed :
        (nm : NetworkManager H) (before after : List Ip) (ip : Ip)
        → Leased nm (before ++ ip ∷ after)
        → Leased (release_ip base ip nm) (before ++ after)
    moved :
        (nm : NetworkManager H) (held : List Ip) (h : H)
        → Leased nm held
        → Leased (record nm { host = h }) held

abbrev count : ℕ → List ℕ → ℕ
count o [] = 0
count o (x ∷ xs) = if x == o then suc (count o xs) else count o xs

abbrev offsets : Ip → List Ip → List ℕ
offsets base = map (ip_offset base)

count-middle :
    (base : Ip) (o : ℕ) (before after : List Ip) (ip : Ip)
    → count o (offsets base (before ++ ip ∷ after))
      ≡ count o (offsets base (before ++ after)) + count o (ip_offset base ip ∷ [])
count-middle base o [] after ip = ground arith
count-middle base o (x ∷ before) after ip = ground (arith, count-middle base o before after ip)

length-middle :
    (before after : List Ip) (ip : Ip)
    → length (before ++ ip ∷ after) ≡ suc (length (before ++ after))
length-middle [] after ip = refl
length-middle (x ∷ before) after ip = omega (arith, length-middle before after ip)

offset-offset_ip :
    (base : Ip) (o : ℕ) → base.d < 256 → o < 256 → ip_offset base (offset_ip base o) ≡ o
offset-offset_ip base o b h = omega arith

abbrev in_use : ℕ → ℕ → ℕ
in_use o next = if leb 2 o then (if ltb o next then 1 else 0) else 0

-- Each offset from 2 to the next one is held once or released once.
record IsPartition {H : Type 0} (base : Ip) (nm : NetworkManager H) (held : List Ip) : Type 0 where
  once : (o : ℕ) → count o (offsets base held) + count o nm.released ≡ in_use o nm.next_ip
  total : length held + length nm.released + 2 ≡ nm.next_ip
  bound : nm.next_ip ≤ 256

-- The offset that is given out next is below 256 and not held.
new_offset :
    (base : Ip) (next : ℕ) (released : List ℕ) (held : List Ip)
    → ((o : ℕ) → count o (offsets base held) + count o released ≡ in_use o next)
    → length held + length released + 2 ≡ next
    → next ≤ 256
    → length held < 254
    → (next_offset next released < 256)
      × (count (next_offset next released) (offsets base held) ≡ 0)
new_offset base next [] held once total bound room = (omega arith, ground (arith, once next))
new_offset base next (x ∷ released) held once total bound room =
    (ground (arith, once x), ground (arith, once x))

next_next : (n : ℕ) → n ≤ 256 → suc n % 2 ^ 32 ≡ suc n
next_next n h = omega arith

-- The next offset comes into use.
next_once :
    (n o c : ℕ) → c + 0 ≡ in_use o n → 2 ≤ n → (if n == o then suc c else c) + 0 ≡ in_use o (suc n)
next_once n o c once low = ground arith

module _ {H : Type 0} (base : Ip) (small : base.d < 256) where
  allocated-IsPartition :
      (released : List ℕ) (nm : NetworkManager H) (held : List Ip)
      → nm.released ≡ released
      → IsPartition base nm held
      → length held < 254
      → IsPartition base (allocate_ip base nm).1 ((allocate_ip base nm).0 ∷ held)
  unfolding allocate_ip
  allocated-IsPartition [] nm held e p room =
      let total : length held + 2 ≡ nm.next_ip = omega (arith, p.total, ap (length {A = ℕ}) e) in
      let n = nm.next_ip in
      let once : (o : ℕ) → count o (offsets base held) + 0 ≡ in_use o n = λ o. rw e at (p.once o) in
      let same = offset-offset_ip base n small (omega arith) in
      let after = next_next n p.bound in
      rw (e, taken)
        (record {
          once = λ o. rw (same, after) (next_once n o _ (once o) (omega arith));
          total = rw after (omega (arith, ap (length {A = ℕ}) e));
          bound = rw after (omega arith);
        })
  allocated-IsPartition (x ∷ released) nm held e p room =
      let once : (o : ℕ)
          → count o (offsets base held) + count o (x ∷ released) ≡ in_use o nm.next_ip =
        λ o. rw e at (p.once o) in
      let total : length held + length (x ∷ released) + 2 ≡ nm.next_ip = rw e at p.total in
      let (few, _) = new_offset base nm.next_ip (x ∷ released) held once total p.bound room in
      let same = offset-offset_ip base x small few in
      rw (e, taken)
        (record {
          once = λ o. rw same (ground (arith, once o));
          total = omega arith;
          bound = p.bound;
        })

  Leased-IsPartition :
      (nm : NetworkManager H) (held : List Ip) → Leased base nm held → IsPartition base nm held
  unfolding release_ip
  Leased-IsPartition _ _ (fresh nm next none) = record {
    once = λ o. rw (next, none) (ground arith);
    total = rw (next, none) refl;
    bound = rw next (omega arith);
  }
  Leased-IsPartition _ _ (allocated nm held l room) =
      allocated-IsPartition nm.released nm held refl (Leased-IsPartition nm held l) room
  Leased-IsPartition _ _ (freed nm before after ip l) =
      let p = Leased-IsPartition nm (before ++ ip ∷ after) l in
      record {
        once = λ o. ground (arith, p.once o, count-middle base o before after ip);
        total = omega (arith, p.total, length-middle before after ip);
        bound = p.bound;
      }
  Leased-IsPartition _ _ (moved nm held h l) =
      let p = Leased-IsPartition nm held l in
      record { once = p.once; total = p.total; bound = p.bound }

count-All :
    (base ip : Ip) (held : List Ip)
    → count (ip_offset base ip) (offsets base held) ≡ 0
    → All (λ x. x ≢ ip) held
count-All base ip [] h = tt
count-All base ip (x ∷ held) h = elim (Bool-cases (ip_offset base x == ip_offset base ip)) [
  | inl same ↦ absurd (omega (arith, rw same at h))
  | inr other ↦ (
    λ e. cc (
      other,
      ap (λ (y : Ip). ip_offset base y == ip_offset base ip) e,
      eq_self (ip_offset base ip),
    ),
    count-All base ip held (rw other at h),
  )
]
  where
    eq_self : (n : ℕ) → (n == n) ≡ true
    eq_self n = ground arith

module _ {H : Type 0} (base : Ip) where
  -- Over every history of allocations and releases in which an address is released only by the
  -- guest that has it, and in which each allocation is made while fewer than 254 guests have an
  -- address, as this one is too, the address that is allocated is not the address of any of them.
  pub allocate_ip_new :
      (nm : NetworkManager H) (held : List Ip)
      → base.d < 256
      → Leased base nm held
      → length held < 254
      → All (λ ip. ip ≢ (allocate_ip base nm).0) held
  unfolding allocate_ip
  allocate_ip_new nm held small l room =
      let p = Leased-IsPartition base small nm held l in
      let (few, free) = new_offset base nm.next_ip nm.released held p.once p.total p.bound room in
      count-All base (offset_ip base (next_offset nm.next_ip nm.released)) held
        (rw (offset-offset_ip base (next_offset nm.next_ip nm.released) small few) free)

  -- After a history in which an address is released only by the guest that has it, and in which each
  -- allocation is made while fewer than 254 guests have an address, the pool is used up once 254
  -- have one: the address that is allocated then is the base address itself, the network's, and
  -- allocateIP has no error for it.
  pub allocate_ip_exhausted :
      (nm : NetworkManager H) (held : List Ip)
      → base.d < 256
      → Leased base nm held
      → length held ≡ 254
      → (allocate_ip base nm).0 ≡ base
  unfolding allocate_ip
  allocate_ip_exhausted nm held small l full =
      let p = Leased-IsPartition base small nm held l in
      exhausted nm.next_ip nm.released (omega (arith, p.total, p.bound))
        (omega (arith, p.total, p.bound))
    where
      exhausted :
          (next : ℕ) (released : List ℕ)
          → next ≡ 256
          → length released ≡ 0
          → offset_ip base (next_offset next released) ≡ base
      exhausted next [] n e =
          let whole : (base.d + 0) % 256 ≡ base.d = omega arith in
          rw n (ap (λ (k : ℕ). record base { d = k }) whole)
      exhausted next (x ∷ released) n e = absurd (omega arith)
