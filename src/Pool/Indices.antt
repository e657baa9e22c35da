-- ===== src/Pool/Indices.antt =====
-- src/mpmc_queue.c as the queue of free indices of src/tsa_packet_pool.c. Its state is `none` once a
-- call does not return, which does not happen to a queue that is ready.
use tsanalyzer.Base.{
  ℕ, suc, ◌^◌, ◌<◌, ◌≡◌, sym, ap, ◌∙◌, subst, List, [], Option, none, some, Bool, false,
}
use tsanalyzer.BoundedQueue.{put, get}
use tsanalyzer.Mpmc.{Queue, no_item}
use tsanalyzer.Mpmc.Sequence
use tsanalyzer.Mpmc.Sequence.Valid
use tsanalyzer.Mpmc.Sequence.Refine.{Refined, push_returns, pop_returns}
use tsanalyzer.Mpmc.Sequence.Valid.{IsValid, IsValid-fewer}
use tsanalyzer.Pool.{FreeQueue}

unfoldable pub returned : {A : Type 0} → A → Option (A × Queue) → A × Option Queue
returned a none = (a, none)
returned a (some (b, q)) = (b, some q)

unfoldable pub push : Option Queue → ℕ → Bool × Option Queue
push none x = (false, none)
push (some q) x = returned false (Sequence.push q x)

unfoldable pub pop : Option Queue → Option ℕ × Option Queue
pop none = (none, none)
pop (some q) = returned none (Sequence.pop q)

unfoldable pub contents : Option Queue → List ℕ
contents none = []
contents (some q) = Valid.contents q

unfoldable pub Ready : ℕ → ℕ → Option Queue → Type 0
Ready k n none = ⊥
Ready k n (some q) = IsValid k n q

pub ready_fewer : (k n : ℕ) (q : Option Queue) → Ready k (suc n) q → Ready k n q
unfolding Ready
ready_fewer k n none r = elim r [ ]
ready_fewer k n (some q) r = IsValid-fewer r

pub push_law :
    (k n : ℕ) (q : Option Queue) (x : ℕ)
    → Ready k (suc n) q
    → x < no_item
    → let (done, next) = push q x in
      ((done, contents next) ≡ put (2 ^ k) (contents q) x) × Ready k n next
unfolding Ready push contents returned Refined
push_law k n none x r small = elim r [ ]
push_law k n (some q) x r small =
    let (next, returns, holds, same, valid) = push_returns k n q x r small in
    subst
      (λ o.
        let (done, left) = returned false o in
        ((done, contents left) ≡ put (2 ^ k) (Valid.contents q) x) × Ready k n left)
      (sym returns)
      (
        ap (λ l. ((put q.capacity (Valid.contents q) x).0, l)) holds
            ∙ ap (λ c. put c (Valid.contents q) x) r.power,
        valid,
      )

pub pop_law :
    (k n : ℕ) (q : Option Queue)
    → Ready k n q
    → let (out, next) = pop q in ((out, contents next) ≡ get (contents q)) × Ready k n next
unfolding Ready pop contents returned Refined
pop_law k n none r = elim r [ ]
pop_law k n (some q) r =
    let (next, returns, holds, same, valid) = pop_returns k n q r in
    subst
      (λ o.
        let (out, left) = returned none o in
        ((out, contents left) ≡ get (Valid.contents q)) × Ready k n left)
      (sym returns) (ap (λ l. ((get (Valid.contents q)).0, l)) holds, valid)

-- The queue of capacity 2^k.
abbrev pub indices : ℕ → FreeQueue (Option Queue)
indices k = record {
  push = push;
  pop = pop;
  contents = contents;
  capacity = 2 ^ k;
  Ready = Ready k;
  ready_fewer = ready_fewer k;
  push_law = push_law k;
  pop_law = pop_law k;
}
