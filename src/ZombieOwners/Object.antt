-- ===== src/ZombieOwners/Object.antt =====
-- The class `ZombieOwners` (ZombieOwners.h): its members, and the pointers into `m_owners`.
use zombie_finder.Base.{
  ℕ, suc, Option, none, some, List, [], ◌∷◌, map, leb, ◌==◌, if◌then◌else◌, length, ◌>>=◌,
}
use zombie_finder.Base.Map.{Map, find}
use zombie_finder.Base.Text.{Text}
use zombie_finder.ZombieInfo.{ZombieProcessThreadInfo}
use zombie_finder.ZombieOwners.{ZombieOwner}
use zombie_finder.ZombieOwners.Sorting.{sort_owners}

-- `const ZombieOwner_t*`: the element of `m_owners` for a process ID, since that map was last cleared.
pub record OwnerPointer : Type 0 where
  pub epoch : ℕ
  pub pid : ℕ

pub record ZombieOwners : Type 0 where
  pub owners : Map ZombieOwner
  pub epoch : ℕ
  pub owners_sorted : List OwnerPointer
  pub unexplained : List ZombieProcessThreadInfo
  pub process_enum_errors : List Text
  pub n_zombie_processes_and_threads : ℕ
  pub n_zombie_processes : ℕ
  pub n_total_processes : ℕ

-- The element that a pointer leads to; `none` if the pointer dangles.
unfoldable pub load : ZombieOwners → OwnerPointer → Option ZombieOwner
load z p = if p.epoch == z.epoch then find p.pid z.owners else none

unfoldable pub load_all : ZombieOwners → List OwnerPointer → Option (List ZombieOwner)
unfolding load
load_all z [] = some []
load_all z (p ∷ ps) = do o ← load z p; os ← load_all z ps; some (o ∷ os)

abbrev pub pointer_to : ℕ → ZombieOwner → OwnerPointer
pointer_to epoch o = record { epoch = epoch; pid = o.pid }

-- `&(iter->second)`.
abbrev pub element_pointer : ℕ → ℕ × ZombieOwner → OwnerPointer
element_pointer epoch (pid, o) = record { epoch = epoch; pid = pid }

-- `std::sort` of the pointers: from two of them on the comparator reads what each leads to.
unfoldable pub sort_pointers : ZombieOwners → List OwnerPointer → Option (List OwnerPointer)
unfolding load_all
sort_pointers z ps = if leb (length ps) 1 then some ps else elim (load_all z ps) [
  | none ↦ none
  | some os ↦ some (map (pointer_to z.epoch) (sort_owners os))
]

-- `m_owners.clear()` and the other resets; `m_ownersSorted` is not among them.
unfoldable pub reset : ZombieOwners → ZombieOwners
reset z = record z {
  owners = [];
  epoch = suc z.epoch;
  unexplained = [];
  n_zombie_processes_and_threads = 0;
  n_zombie_processes = 0;
  n_total_processes = 0;
}
