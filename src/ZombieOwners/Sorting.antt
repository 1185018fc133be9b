-- ===== src/ZombieOwners/Sorting.antt =====
-- `std::sort` of `m_ownersSorted` by `ZombieOwnerComparator` (ZombieOwners.cpp), written as an
-- insertion sort.
use mathlib.Core.List.Permᴰ
use mathlib.Core.List.{Permᴰ}
use zombie_finder.Base.{
  ◌≡◌, ◌≢◌, refl, ap, sym, ◌∙◌, false, List, [], ◌∷◌, inl, inr, arith, Bool-cases, if◌then◌else◌,
  All, subst, ◌↔◌,
}
use zombie_finder.ZombieOwners.{ZombieOwner}
use zombie_finder.ZombieOwners.Comparator.{
  ◌≺◌, comparator_asymm, comparator_total, comparator_cotrans,
}

unfoldable pub insert_owner : ZombieOwner → List ZombieOwner → List ZombieOwner
insert_owner o [] = o ∷ []
insert_owner o (x ∷ rest) = if x ≺ o then x ∷ insert_owner o rest else o ∷ x ∷ rest

unfoldable pub sort_owners : List ZombieOwner → List ZombieOwner
sort_owners [] = []
sort_owners (o ∷ rest) = insert_owner o (sort_owners rest)

-- No owner comes before an owner that stands ahead of it.
abbrev pub IsSorted : List ZombieOwner → Type 0
IsSorted [] = Unit
IsSorted (x ∷ rest) = All (λ y. (y ≺ x) ≡ false) rest × IsSorted rest

-- No two owners have the same process ID.
abbrev pub Apart : List ZombieOwner → Type 0
Apart [] = Unit
Apart (x ∷ rest) = All (λ y. x.pid ≢ y.pid) rest × Apart rest

module _ {κ} (P : ZombieOwner → Type κ) where
  insert-All : (o : ZombieOwner) (l : List ZombieOwner) → P o → All P l → All P (insert_owner o l)
  unfolding insert_owner
  insert-All o [] p h = (p, tt)
  insert-All o (x ∷ rest) p h = elim (Bool-cases (x ≺ o)) [
    | inl e ↦ rw (e, insert_owner) (h.0, insert-All o rest p h.1)
    | inr e ↦ rw (e, insert_owner) (p, h)
  ]

  pub Perm-All : (xs ys : List ZombieOwner) → Permᴰ xs ys → All P xs → All P ys
  Perm-All _ _ Permᴰ.nil h = h
  Perm-All _ _ (Permᴰ.cons {l₁ = xs} {l₂ = ys} e p) h = (subst P e h.0, Perm-All xs ys p h.1)
  Perm-All _ _ (Permᴰ.swap e f) h = (subst P f h.1.0, (subst P e h.0, h.1.1))
  Perm-All xs zs (Permᴰ.trans {l₂ = ys} p q) h = Perm-All ys zs q (Perm-All xs ys p h)

-- What does not come before one owner does not come before what that one does not follow.
behind :
    (x o : ZombieOwner) (l : List ZombieOwner)
    → (x ≺ o) ≡ false
    → All (λ y. (y ≺ x) ≡ false) l
    → All (λ y. (y ≺ o) ≡ false) l
behind x o [] e h = tt
behind x o (y ∷ l) e h = (ground (arith, comparator_cotrans y x o, h.0, e), behind x o l e h.1)

insert-IsSorted :
    (o : ZombieOwner) (l : List ZombieOwner) → IsSorted l → IsSorted (insert_owner o l)
unfolding insert_owner
insert-IsSorted o [] h = (tt, tt)
insert-IsSorted o (x ∷ rest) h = elim (Bool-cases (x ≺ o)) [
  | inl e ↦
      rw (e, insert_owner)
        (
          insert-All (λ y. (y ≺ x) ≡ false) o rest (comparator_asymm x o e) h.0,
          insert-IsSorted o rest h.1,
        )
  | inr e ↦ rw (e, insert_owner) ((e, behind x o rest e h.0), h)
]

insert_comm :
    (a b : ZombieOwner) (l : List ZombieOwner)
    → a.pid ≢ b.pid
    → insert_owner a (insert_owner b l) ≡ insert_owner b (insert_owner a l)
unfolding insert_owner
insert_comm a b [] ne = ground (arith, comparator_asymm a b, comparator_total a b ne)
insert_comm a b (x ∷ rest) ne = ground (
  arith,
  insert_comm a b rest ne,
  comparator_asymm a b,
  comparator_total a b ne,
  comparator_cotrans x b a,
  comparator_cotrans x a b,
)

Perm-Apart : (xs ys : List ZombieOwner) → Permᴰ xs ys → Apart xs → Apart ys
Perm-Apart _ _ Permᴰ.nil h = h
Perm-Apart _ _ (Permᴰ.cons {b = y} {l₁ = xs} {l₂ = ys} e p) h =
    let apart = subst (λ o. All (λ z. o.pid ≢ z.pid) xs) e h.0 in
    (Perm-All (λ z. y.pid ≢ z.pid) xs ys p apart, Perm-Apart xs ys p h.1)
Perm-Apart _ _ (Permᴰ.swap {a = a} {b = b} {a' = a'} {l = l} e f) h =
    let other : b.pid ≢ a.pid = λ same. h.0.0 (sym same) in
    (
      (
        subst (λ o. a'.pid ≢ o.pid) e (subst (λ o. o.pid ≢ a.pid) f other),
        subst (λ o. All (λ z. o.pid ≢ z.pid) l) f h.1.0,
      ),
      (subst (λ o. All (λ z. o.pid ≢ z.pid) l) e h.0.1, h.1.1),
    )
Perm-Apart xs zs (Permᴰ.trans {l₂ = ys} p q) h = Perm-Apart ys zs q (Perm-Apart xs ys p h)

sort_owners-Perm :
    (xs ys : List ZombieOwner) → Permᴰ xs ys → Apart xs → sort_owners xs ≡ sort_owners ys
unfolding sort_owners
sort_owners-Perm _ _ Permᴰ.nil h = refl
sort_owners-Perm _ _ (Permᴰ.cons {a = x} {b = y} {l₁ = xs} {l₂ = ys} e p) h =
    ap (insert_owner x) (sort_owners-Perm xs ys p h.1) ∙ ap (λ o. insert_owner o (sort_owners ys)) e
sort_owners-Perm _ _ (Permᴰ.swap {a = a} {b = b} {a' = a'} {l = l} e f) h =
    insert_comm a b (sort_owners l) h.0.0
    ∙ ap (λ o. insert_owner o (insert_owner a (sort_owners l))) f
    ∙ ap (λ o. insert_owner a' (insert_owner o (sort_owners l))) e
sort_owners-Perm xs zs (Permᴰ.trans {l₂ = ys} p q) h =
    sort_owners-Perm xs ys p h ∙ sort_owners-Perm ys zs q (Perm-Apart xs ys p h)

pub sort_owners-fixed : (l : List ZombieOwner) → IsSorted l → sort_owners l ≡ l
unfolding sort_owners insert_owner
sort_owners-fixed [] h = refl
sort_owners-fixed (x ∷ []) h = refl
sort_owners-fixed (x ∷ y ∷ rest) h =
    ap (insert_owner x) (sort_owners-fixed (y ∷ rest) h.1) ∙ rw (h.0.0, insert_owner) refl

insert-Perm : (o : ZombieOwner) (l : List ZombieOwner) → Permᴰ (o ∷ l) (insert_owner o l)
unfolding insert_owner
insert-Perm o [] = Permᴰ.cons refl Permᴰ.nil
insert-Perm o (x ∷ rest) = elim (Bool-cases (x ≺ o)) [
  | inl e ↦
      rw (e, insert_owner)
        (Permᴰ.trans (Permᴰ.swap refl refl) (Permᴰ.cons refl (insert-Perm o rest)))
  | inr e ↦ rw (e, insert_owner) (Permᴰ.cons refl (Permᴰ.refl (x ∷ rest)))
]

-- The result of the sort is a sorted rearrangement.
pub sort_owners_lem : (l : List ZombieOwner) → Permᴰ l (sort_owners l) × IsSorted (sort_owners l)
unfolding sort_owners
sort_owners_lem [] = (Permᴰ.nil, tt)
sort_owners_lem (o ∷ rest) =
    let (same, sorted) = sort_owners_lem rest in
    (
      Permᴰ.trans (Permᴰ.cons refl same) (insert-Perm o (sort_owners rest)),
      insert-IsSorted o (sort_owners rest) sorted,
    )

pub sort_owners_unique :
    (l sorted : List ZombieOwner)
    → Apart l
    → Permᴰ l sorted
    → IsSorted sorted
    → sorted ≡ sort_owners l
sort_owners_unique l sorted apart same h =
    sym (sort_owners-fixed sorted h) ∙ sym (sort_owners-Perm l sorted same apart)

-- For owners with different process IDs, a list is a rearrangement of them in which no owner stands
-- behind one that the comparator puts after it, if and only if it is the one that the sort gives:
-- neither the algorithm nor the order in which the map is iterated shows in the report.
pub sort_owners_iff :
    (l sorted : List ZombieOwner)
    → Apart l
    → (Permᴰ l sorted × IsSorted sorted) ↔ (sorted ≡ sort_owners l)
sort_owners_iff l sorted apart = (
  λ h. sort_owners_unique l sorted apart h.0 h.1,
  λ e. subst (λ s. Permᴰ l s × IsSorted s) (sym e) (sort_owners_lem l),
)
