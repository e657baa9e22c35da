-- ===== src/Pool/Vacancy.antt =====
-- src/tsa_packet_pool.c: which packets are free, as the counts of their references say.
use tsanalyzer.Base.{ℕ, zero, suc, ◌+◌, ◌≤◌, ◌<◌, ◌≡◌, refl, ap, ◌∙◌, subst, arith}
use tsanalyzer.Base.{
  List, [], ◌∷◌, Option, none, some, Bool, true, false, length, get_elem?, set, ◌==◌, ℕ_discrete,
}
use tsanalyzer.Base.{if◌then◌else◌, get_elem?-set_self, get_elem?-set_ne}
use mathlib.Core.Option.{some-injective}
use tsanalyzer.Base.Totals.{total, is_item}
use tsanalyzer.Base.Int.{ℤ, pos, ◌-ℤ◌, ◌≤ℤ◌, eq_ℤ, int_laws}
use tsanalyzer.Pool.{Packet}

-- A packet that someone holds.
unfoldable pub is_held : Packet → ℕ
is_held p = if eq_ℤ p.ref_count (pos 0) then 0 else 1

-- How often an index belongs in the queue.
unfoldable pub vacancy : Option Packet → ℕ
vacancy none = 0
vacancy (some p) = if eq_ℤ p.ref_count (pos 0) then 1 else 0

pub vacancy-set :
    (ps : List Packet) (i j : ℕ) (p : Packet)
    → i < length ps
    → vacancy (get_elem? (set ps i p) j)
      ≡ (if j == i then vacancy (some p) else vacancy (get_elem? ps j))
vacancy-set ps i j p h = elim (ℕ_discrete i j) [
  | yes e ↦
      subst
        (λ m.
          vacancy (get_elem? (set ps i p) m)
          ≡ (if m == i then vacancy (some p) else vacancy (get_elem? ps m)))
        e (ap vacancy (get_elem?-set_self ps i p h) ∙ ground arith)
  | no ne ↦ ap vacancy (get_elem?-set_ne ps p ne) ∙ ground arith
]

pub held_or_vacant : (p : Packet) → is_held p + vacancy (some p) ≡ 1
unfolding is_held vacancy
held_or_vacant p = ground arith

pub count_after :
    (here : Bool) (after before vp vp' vj : ℕ)
    → after + (if here then vp else 0) ≡ before + (if here then vp' else 0)
    → before ≡ vj
    → (here ≡ true → vj ≡ vp)
    → after ≡ (if here then vp' else vj)
count_after true after before vp vp' vj c b h = omega (arith, h refl)
count_after false after before vp vp' vj c b h = omega arith

-- An index in the queue is that of a packet that nobody holds.
pub vacant_packet :
    (o : Option Packet)
    → 0 < vacancy o
    → (p : Packet) × (o ≡ some p) × (is_held p ≡ 0) × (vacancy (some p) ≡ 1)
unfolding vacancy is_held
vacant_packet none h = elim h [ ]
vacant_packet (some p) h = (p, refl, ground arith, ground arith)

pub is_item_self : (i : ℕ) → is_item i i ≡ 1
unfolding is_item
is_item_self i = ground arith

pub fresh_vacancy : vacancy (some (record { ref_count = pos 1; metadata = none })) ≡ 0
unfolding vacancy
fresh_vacancy = refl

pub moved :
    (here : Bool) (before after vp : ℕ)
    → before ≡ (if here then 1 else 0) + after
    → vp ≡ 1
    → after + (if here then vp else 0)
      ≡ before
        + (if here then vacancy (some (record { ref_count = pos 1; metadata = none })) else 0)
unfolding vacancy
moved true before after vp c one = omega arith
moved false before after vp c one = omega arith

pub held_vacancy : (p : Packet) → pos 1 ≤ℤ p.ref_count → vacancy (some p) ≡ 0
unfolding vacancy
held_vacancy p h = ground arith

pub one_left :
    (refs : ℤ) → pos 1 ≤ℤ refs → eq_ℤ (refs -ℤ pos 1) (pos 0) ≡ false → pos 1 ≤ℤ refs -ℤ pos 1
one_left refs h e = grind int_laws

pub returned :
    (here : Bool) (after before vp vp' : ℕ)
    → after ≡ before + (if here then 1 else 0)
    → vp ≡ 0
    → vp' ≡ 1
    → after + (if here then vp else 0) ≡ before + (if here then vp' else 0)
returned true after before vp vp' c a b = omega arith
returned false after before vp vp' c a b = omega arith

-- A held packet weighs one.
pub held_one :
    (ps : List Packet) (i : ℕ) (p : Packet) → get_elem? ps i ≡ some p → is_held p ≤ total is_held ps
unfolding total
held_one [] i p e = cc
held_one (q ∷ ps) zero p e = omega (arith, ap is_held (some-injective q p e))
held_one (q ∷ ps) (suc i) p e = omega (arith, held_one ps i p e)
