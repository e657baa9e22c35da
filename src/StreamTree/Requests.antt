-- ===== src/StreamTree/Requests.antt =====
-- src/tsa_stream.c: what a parent knows after any sequence of joins and leaves of its child.
use tsanalyzer.Base.{ℕ, ◌+◌, ◌-◌, ◌^◌, ◌<◌, ◌≤◌, ◌≡◌, ◌≢◌, refl, ap, arith, List, [], ◌∷◌, length}
use tsanalyzer.Base.{u16, if_each, option_each, ltb, leb, ◌==◌, if◌then◌else◌}
use tsanalyzer.StreamTree.{
  Stream, Store, max_pid, set_pid, tell_join, tell_leave, tell_parent, join, leave,
}
use tsanalyzer.StreamTree.Subscriptions.{IsTold, join-IsTold, leave-IsTold}

-- What a child asks for.
pub data Request : Type 0 where
  join_it leave_it : ℕ → Request

abbrev pub serve : Store → ℕ → Request → Store
serve s i (join_it pid) = join s i pid
serve s i (leave_it pid) = leave s i pid

unfoldable pub serve_all : Store → ℕ → List Request → Store
serve_all s i [] = s
serve_all s i (r ∷ rs) = serve_all (serve s i r) i rs

abbrev wants : Store → ℕ → ℕ → ℕ
wants s i q = (s.streams i).pid_list q

wants-set_pid :
    (s : Store) (i pid n q : ℕ)
    → n ≤ wants s i pid + 1
    → wants (set_pid s i pid n) i q ≤ wants s i q + 1
wants-set_pid s i pid n q h = ground (arith, same)
  where
    same : pid ≡ q → wants s i pid ≡ wants s i q
    same e = ap (wants s i) e

wants-tell_parent :
    (tell : Store → ℕ → ℕ → Store) (s : Store) (i pid q : ℕ)
    → ((j : ℕ) → (tell s j pid).streams ≡ s.streams)
    → wants (tell_parent tell s i pid) i q ≡ wants s i q
unfolding tell_parent
wants-tell_parent tell s i pid q h =
    option_each (λ (t : Store). wants t i q ≡ wants s i q) (s.streams i).parent _ _ refl
      (λ up e. ap (λ (f : ℕ → Stream). (f i).pid_list q) (h up))

tell_join_streams : (s : Store) (j pid : ℕ) → (tell_join s j pid).streams ≡ s.streams
unfolding tell_join
tell_join_streams s j pid = if_each (λ (t : Store). t.streams ≡ s.streams) _ _ _ refl refl

tell_leave_streams : (s : Store) (j pid : ℕ) → (tell_leave s j pid).streams ≡ s.streams
unfolding tell_leave
tell_leave_streams s j pid = if_each (λ (t : Store). t.streams ≡ s.streams) _ _ _ refl refl

abbrev Few : Store → ℕ → ℕ → Store → Type 0
Few s i q t = wants t i q ≤ wants s i q + 1

-- A request raises a counter by one at most.
wants-serve : (s : Store) (i : ℕ) (r : Request) (q : ℕ) → wants (serve s i r) i q ≤ wants s i q + 1
unfolding join leave
wants-serve s i (join_it pid) q =
    let n : ℕ = u16 (wants s i pid + 1) in
    let counted = wants-set_pid s i pid n q (omega arith) in
    let stay : wants s i q ≤ wants s i q + 1 = omega arith in
    let told : wants (tell_parent tell_join (set_pid s i pid n) i pid) i q ≤ wants s i q + 1 =
      omega (
        arith,
        counted,
        wants-tell_parent tell_join (set_pid s i pid n) i pid q (λ j. tell_join_streams _ j pid),
      ) in
    let c : Store = set_pid s i pid n in
    let t : Store = tell_parent tell_join c i pid in
    if_each (Few s i q) (leb max_pid pid) s (if n == 1 then t else c) stay
      (if_each (Few s i q) (n == 1) t c told counted)
wants-serve s i (leave_it pid) q =
    let n : ℕ = wants s i pid - 1 in
    let counted = wants-set_pid s i pid n q (omega arith) in
    let stay : wants s i q ≤ wants s i q + 1 = omega arith in
    let told : wants (tell_parent tell_leave (set_pid s i pid n) i pid) i q ≤ wants s i q + 1 =
      omega (
        arith,
        counted,
        wants-tell_parent tell_leave (set_pid s i pid n) i pid q (λ j. tell_leave_streams _ j pid),
      ) in
    let c : Store = set_pid s i pid n in
    let t : Store = tell_parent tell_leave c i pid in
    let lowered : Store = if n == 0 then t else c in
    if_each (Few s i q) (leb max_pid pid) s (if ltb 0 (wants s i pid) then lowered else s) stay (
      if_each (Few s i q) (ltb 0 (wants s i pid)) lowered s
        (if_each (Few s i q) (n == 0) t c told counted) stay)

-- After any joins and leaves of a child, so few that no counter reaches 2^16, its parent, another
-- stream with both callbacks, was told of one more join than leaves of a PID if the child wants it,
-- and of as many if it does not, provided that it was so at first.
pub serve_all-IsTold :
    (i up pid : ℕ) (s : Store) (rs : List Request)
    → i ≢ up
    → ((q : ℕ) → (s.streams i).pid_list q + length rs < 2 ^ 16)
    → IsTold i up pid s
    → IsTold i up pid (serve_all s i rs)
unfolding serve_all
serve_all-IsTold i up pid s [] apart small told = told
serve_all-IsTold i up pid s (r ∷ rs) apart small told =
    serve_all-IsTold i up pid (serve s i r) rs apart
      (λ q. omega (arith, small q, wants-serve s i r q)) (one r)
  where
    one : (r : Request) → IsTold i up pid (serve s i r)
    one (join_it q) = join-IsTold i up pid q s apart (omega (arith, small q)) told
    one (leave_it q) = leave-IsTold i up pid q s apart told
