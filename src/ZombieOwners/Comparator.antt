-- ===== src/ZombieOwners/Comparator.antt =====
-- `ZombieOwnerComparator` (ZombieOwners.cpp) as an order on owners.
use zombie_finder.Base.{◌≡◌, ◌≢◌, Bool, true, false, arith, not, ◌&&◌}
use zombie_finder.Strings.Folding.{wcsicmp_refl, wcsicmp-flip, wcsicmp_eq, wcsicmp_trans}
use zombie_finder.ZombieOwners.{ZombieOwner, zombie_owner_comparator}

infix 50 ◌≺◌
abbrev pub ◌≺◌ : ZombieOwner → ZombieOwner → Bool
a ≺ b = zombie_owner_comparator a b

comparator_irrefl : (a : ZombieOwner) → (a ≺ a) ≡ false
unfolding zombie_owner_comparator
comparator_irrefl a = ground (arith, wcsicmp_refl a.exe_name)

pub comparator_asymm : (a b : ZombieOwner) → (a ≺ b) ≡ true → (b ≺ a) ≡ false
unfolding zombie_owner_comparator
comparator_asymm a b h = ground (arith, wcsicmp-flip a.exe_name b.exe_name)

-- What comes before an owner that comes before a third one comes before the third.
comparator_trans : (a b c : ZombieOwner) → (a ≺ b) ≡ true → (b ≺ c) ≡ true → (a ≺ c) ≡ true
unfolding zombie_owner_comparator
comparator_trans a b c h k = ground (
  arith,
  wcsicmp_eq a.exe_name b.exe_name c.exe_name,
  wcsicmp_eq c.exe_name b.exe_name a.exe_name,
  wcsicmp-flip a.exe_name b.exe_name,
  wcsicmp-flip b.exe_name c.exe_name,
  wcsicmp-flip a.exe_name c.exe_name,
  wcsicmp_trans a.exe_name b.exe_name c.exe_name,
)

pub comparator_total : (a b : ZombieOwner) → a.pid ≢ b.pid → (a ≺ b) ≡ false → (b ≺ a) ≡ true
unfolding zombie_owner_comparator
comparator_total a b h k = ground (arith, wcsicmp-flip a.exe_name b.exe_name)

-- An owner that comes before another one comes before each owner that does not come before that one.
pub comparator_cotrans : (a b c : ZombieOwner) → (a ≺ c) ≡ true → (b ≺ c) ≡ false → (a ≺ b) ≡ true
unfolding zombie_owner_comparator
comparator_cotrans a b c h k = ground (
  arith,
  wcsicmp_eq a.exe_name b.exe_name c.exe_name,
  wcsicmp_eq c.exe_name b.exe_name a.exe_name,
  wcsicmp-flip a.exe_name b.exe_name,
  wcsicmp-flip b.exe_name c.exe_name,
  wcsicmp-flip a.exe_name c.exe_name,
  wcsicmp_trans c.exe_name b.exe_name a.exe_name,
  wcsicmp_trans a.exe_name c.exe_name b.exe_name,
)

-- The comparator is a strict weak order, as `std::sort` asks for: no owner comes before itself; of two
-- owners one at most comes before the other; what comes before an owner that comes before a third one
-- comes before the third; and what comes before an owner comes before each that does not itself come
-- before that owner.
pub zombie_owner_comparator_strict_weak :
    (a b c : ZombieOwner)
    → (zombie_owner_comparator a a ≡ false)
      × ((zombie_owner_comparator a b && zombie_owner_comparator b a) ≡ false)
      × ((zombie_owner_comparator a b
            && zombie_owner_comparator b c
            && not (zombie_owner_comparator a c))
          ≡ false)
      × ((zombie_owner_comparator a c
            && not (zombie_owner_comparator b c)
            && not (zombie_owner_comparator a b))
          ≡ false)
zombie_owner_comparator_strict_weak a b c = (
  comparator_irrefl a,
  ground (arith, comparator_asymm a b),
  ground (arith, comparator_trans a b c),
  ground (arith, comparator_cotrans a b c),
)
