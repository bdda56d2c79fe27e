-- ===== src/Badger/DelegateRepo/Sorted.antt =====
-- The order of the rows that `GetAll` of internal/infrastructure/db/badger/delegate_repo.go sorts.
use mathlib.Core.List.{Perm}
use mathlib.Core.List.Perm
use fulmine.Base.{◌≡◌, true, false, List, [], ◌∷◌, All, All-map, Bool-cases, inl, inr, arith}
use fulmine.Base.Int.{ℤ, ltb_ℤ}
use fulmine.Badger.Dto.{DelegateTaskDto}
use fulmine.Badger.DelegateRepo.Pages.{insert_by_schedule, sort_by_schedule}

-- No later row is scheduled later.
abbrev pub LatestFirst : List DelegateTaskDto → Type 0
LatestFirst [] = Unit {0}
LatestFirst (d ∷ ds) = All (λ e. ltb_ℤ d.scheduled_at e.scheduled_at ≡ false) ds × LatestFirst ds

ltb_ℤ_trans : (a b c : ℤ) → ltb_ℤ a b ≡ false → ltb_ℤ b c ≡ false → ltb_ℤ a c ≡ false
ltb_ℤ_trans a b c e f = ground arith

ltb_ℤ_asym : (a b : ℤ) → ltb_ℤ a b ≡ true → ltb_ℤ b a ≡ false
ltb_ℤ_asym a b e = ground arith

insert-All :
    (P : DelegateTaskDto → Type 0) (d : DelegateTaskDto) (es : List DelegateTaskDto)
    → P d
    → All P es
    → All P (insert_by_schedule d es)
unfolding insert_by_schedule
insert-All P d [] pd all = (pd, tt)
insert-All P d (e ∷ es) pd (pe, all) = elim (Bool-cases (ltb_ℤ d.scheduled_at e.scheduled_at)) [
  | inl later ↦ rw (later, insert_by_schedule) (pe, insert-All P d es pd all)
  | inr sooner ↦ rw (sooner, insert_by_schedule) (pd, (pe, all))
]

insert-LatestFirst :
    (d : DelegateTaskDto) (es : List DelegateTaskDto)
    → LatestFirst es
    → LatestFirst (insert_by_schedule d es)
unfolding insert_by_schedule
insert-LatestFirst d [] s = (tt, tt)
insert-LatestFirst d (e ∷ es) (below, s) = elim (Bool-cases (ltb_ℤ d.scheduled_at e.scheduled_at)) [
  | inl later ↦
      rw (later, insert_by_schedule)
        (
          insert-All _ d es (ltb_ℤ_asym d.scheduled_at e.scheduled_at later) below,
          insert-LatestFirst d es s,
        )
  | inr sooner ↦
      rw (sooner, insert_by_schedule)
        (
          (
            sooner,
            All-map _ _ (λ x h. ltb_ℤ_trans d.scheduled_at e.scheduled_at x.scheduled_at sooner h)
                es below,
          ),
          (below, s),
        )
]

pub sort-LatestFirst : (ds : List DelegateTaskDto) → LatestFirst (sort_by_schedule ds)
unfolding sort_by_schedule
sort-LatestFirst [] = tt
sort-LatestFirst (d ∷ ds) = insert-LatestFirst d (sort_by_schedule ds) (sort-LatestFirst ds)

insert-Perm :
    (d : DelegateTaskDto) (es : List DelegateTaskDto) → Perm (insert_by_schedule d es) (d ∷ es)
unfolding insert_by_schedule
insert-Perm d [] = Perm.refl (d ∷ [])
insert-Perm d (e ∷ es) = elim (Bool-cases (ltb_ℤ d.scheduled_at e.scheduled_at)) [
  | inl later ↦
      rw (later, insert_by_schedule)
        (Perm.trans (Perm.cons e (insert-Perm d es)) (Perm.swap d e es))
  | inr sooner ↦ rw (sooner, insert_by_schedule) (Perm.refl (d ∷ e ∷ es))
]

pub sort-Perm : (ds : List DelegateTaskDto) → Perm (sort_by_schedule ds) ds
unfolding sort_by_schedule
sort-Perm [] = Perm.refl []
sort-Perm (d ∷ ds) = Perm.trans (insert-Perm d (sort_by_schedule ds)) (Perm.cons d (sort-Perm ds))
