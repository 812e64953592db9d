-- ===== src/Boot/Live.antt =====
-- `validate_live` of the factory boot helpers, as a whole.
use edgepi_e87n.Base.{
  ℕ, ◌+◌, ◌≤◌, ◌<◌, ◌≡◌, ◌⊎◌, inl, inr, refl, Bool, true, List, [], ◌∷◌, Option, none, some, leb,
  ◌==◌, ◌≈◌, length, Bytes, =ᵇ-eq, get_elem?, arith, ok, require, or_raise, bind-eq-ok,
}
use edgepi_e87n.Boot.{
  index_error, small_disk, duplicate_devices, wrong_parts, layout, Part, Mount, Snapshot, part_at,
  same_numbers, check_board, check_parts, check_root, roots, unique, validate_live,
}
use edgepi_e87n.Boot.Layout.{
  AllParts, check_parts-AllParts, length-AllParts, all_different, unique-all_different, Listed,
  part-Listed,
}

-- the mount points at "/" are one, and it is the root of the fifth partition
abbrev pub OnlyRoot : Bytes → List Mount → Type 0
OnlyRoot dev found =
    (root : Mount) × (found ≡ root ∷ [])
    × ((root.source ≈ "/dev/mmcblk0p5") ≡ true)
    × ((root.kind ≈ "ext4") ≡ true)
    × (root.dev ≡ dev)

-- The five partitions of the factory, on five devices, the last of which holds the root.
pub record IsFactory (s : Snapshot) : Type 0 where
  pub devices : List Bytes
  pub numbers : same_numbers s.parts layout ≡ true
  pub parts : AllParts layout s.parts devices
  pub different : all_different devices ≡ true
  pub room : 87040 + 15181791 + 33 ≤ s.sectors
  pub dev : Bytes
  pub fifth : get_elem? devices 4 ≡ some dev
  pub root : OnlyRoot dev (roots s.mounts)

check_root-OnlyRoot :
    (writable : Bool) (dev : Bytes) (found : List Mount)
    → check_root writable dev found ≡ ok tt
    → OnlyRoot dev found
unfolding check_root
check_root-OnlyRoot writable dev (root ∷ []) k =
    (root, refl, ground arith, ground arith, =ᵇ-eq root.dev dev (ground arith))
check_root-OnlyRoot writable dev [] k = cc
check_root-OnlyRoot writable dev (a ∷ b ∷ c) k = cc

get_some : (o : Option Bytes) (d : Bytes) → or_raise o index_error ≡ ok d → o ≡ some d
get_some (some q) p h = ground arith
get_some none p h = cc

-- A board that passes has exactly the factory's partitions, each with the label, place and size of
-- the layout, on pairwise different devices, room for the backup GPT behind the last one, and its
-- root file system is mounted once, as ext4, from the fifth.
pub validate_live-IsFactory :
    (s : Snapshot) (writable : Bool) → validate_live s writable ≡ ok tt → IsFactory s
unfolding validate_live
validate_live-IsFactory s writable h =
    let (_, board, a) = bind-eq-ok (check_board s) _ h in
    let (_, numbers, b) = bind-eq-ok (require (same_numbers s.parts layout) wrong_parts) _ a in
    let (devices, parts, c) = bind-eq-ok (check_parts layout s.parts) _ b in
    let (_, five, d) = bind-eq-ok (require (length (unique devices) == 5) duplicate_devices) _ c in
    let (_, room, e) =
      bind-eq-ok (require (leb (87040 + 15181791 + 33) s.sectors) small_disk) _ d in
    let (dev, fifth, root) = bind-eq-ok (or_raise (get_elem? devices 4) index_error) _ e in
    let all = check_parts-AllParts layout s.parts parts in
    record {
      devices = devices;
      numbers = ground (arith, numbers);
      parts = all;
      different =
          unique-all_different devices
            (ground (arith, five, length-AllParts layout s.parts devices all));
      room = ground (arith, room);
      dev = dev;
      fifth = get_some (get_elem? devices 4) dev fifth;
      root = check_root-OnlyRoot writable dev (roots s.mounts) root;
    }

-- number, first sector and sectors
abbrev Place : ℕ → ℕ → ℕ → ℕ → Part → Type 0
Place k start size n p = (n ≡ k) × (p.start ≡ start) × (p.size ≡ size)

Listed-Place :
    (n : ℕ) (p : Part)
    → Listed layout n p
    → Place 1 8192 1024 n p
      ⊎ (Place 2 9216 8192 n p
          ⊎ (Place 3 17408 4096 n p ⊎ (Place 4 21504 65536 n p ⊎ Place 5 87040 15181791 n p)))
unfolding Listed
Listed-Place n p (inl (k, f)) = inl (k, f.start, f.size)
Listed-Place n p (inr (inl (k, f))) = inr (inl (k, f.start, f.size))
Listed-Place n p (inr (inr (inl (k, f)))) = inr (inr (inl (k, f.start, f.size)))
Listed-Place n p (inr (inr (inr (inl (k, f))))) = inr (inr (inr (inl (k, f.start, f.size))))
Listed-Place n p (inr (inr (inr (inr (inl (k, f)))))) = inr (inr (inr (inr (k, f.start, f.size))))
Listed-Place n p (inr (inr (inr (inr (inr h))))) = absurd h

Listed-order :
    (m n : ℕ) (p q : Part)
    → Listed layout m p
    → Listed layout n q
    → m < n
    → (p.start + p.size ≤ q.start) × (q.start + q.size ≤ 87040 + 15181791)
Listed-order m n p q a b h =
    let first = Listed-Place m p a in
    let second = Listed-Place n q b in (ground (arith, first, second), ground (arith, second))

-- Two partitions of an accepted board do not overlap: the one with the lower number ends where
-- the other starts or before, and 33 sectors or more of the disk follow the latter.
pub parts_disjoint :
    (s : Snapshot) (writable : Bool) (m n : ℕ) (p q : Part)
    → validate_live s writable ≡ ok tt
    → part_at m s.parts ≡ some p
    → part_at n s.parts ≡ some q
    → m < n
    → (p.start + p.size ≤ q.start) × (q.start + q.size + 33 ≤ s.sectors)
parts_disjoint s writable m n p q h at_m at_n less =
    let f = validate_live-IsFactory s writable h in
    let order =
      Listed-order m n p q (part-Listed m p s.parts f.devices f.numbers f.parts at_m)
        (part-Listed n q s.parts f.devices f.numbers f.parts at_n) less in
    (order.0, omega (arith, order.1, f.room))
