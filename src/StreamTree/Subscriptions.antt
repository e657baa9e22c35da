-- ===== src/StreamTree/Subscriptions.antt =====
-- src/tsa_stream.c, `tsa_stream_demux_join_pid` and `tsa_stream_demux_leave_pid`: a parent knows
-- which PIDs its child wants.
use tsanalyzer.Base.{ℕ, ◌+◌, ◌-◌, ◌^◌, ◌<◌, ◌≡◌, ◌≢◌, sym, ap, ◌∙◌, subst, arith, inl, inr}
use tsanalyzer.Base.{List, [], ◌∷◌, none, some, true, ◌&&◌, ltb, leb, ◌==◌, if◌then◌else◌}
use tsanalyzer.Base.{update, update_self, update_ne, u16, if_each, if_then, if_else, Bool-cases}
use tsanalyzer.StreamTree.{
  Notice, joined, left, Stream, Store, max_pid, set_pid, tell_join, tell_leave, tell_parent, join,
  leave,
}

-- How often a stream was told of a PID by either callback.
unfoldable pub joins : ℕ → ℕ → List Notice → ℕ
joins i pid [] = 0
joins i pid (joined j q ∷ ns) = (if (i == j) && (pid == q) then 1 else 0) + joins i pid ns
joins i pid (left j q ∷ ns) = joins i pid ns

unfoldable pub leaves : ℕ → ℕ → List Notice → ℕ
leaves i pid [] = 0
leaves i pid (joined j q ∷ ns) = leaves i pid ns
leaves i pid (left j q ∷ ns) = (if (i == j) && (pid == q) then 1 else 0) + leaves i pid ns

-- The child `i` of `up`, which has both callbacks, wants a PID when `up` was told of one more join
-- than leaves of it, and not when it was told of as many.
pub record IsTold (i up pid : ℕ) (s : Store) : Type 0 where
  pub linked : (s.streams i).parent ≡ some up
  pub hears_join : (s.streams up).join_pid ≡ true
  pub hears_leave : (s.streams up).leave_pid ≡ true
  pub balance :
      joins up pid s.notices
      ≡ leaves up pid s.notices + (if ltb 0 ((s.streams i).pid_list pid) then 1 else 0)

-- What a call can do to the parts that the balance reads.
record IsStep (i up pid q n : ℕ) (more_joins more_leaves : ℕ) (s t : Store) : Type 0 where
  parent : (t.streams i).parent ≡ (s.streams i).parent
  above : t.streams up ≡ s.streams up
  pids : (t.streams i).pid_list pid ≡ (if q == pid then n else (s.streams i).pid_list pid)
  joined_more : joins up pid t.notices ≡ more_joins + joins up pid s.notices
  left_more : leaves up pid t.notices ≡ more_leaves + leaves up pid s.notices

set_pid-IsStep :
    (i up pid q n : ℕ) (s : Store) → i ≢ up → IsStep i up pid q n 0 0 s (set_pid s i q n)
set_pid-IsStep i up pid q n s apart =
    let x : Stream = record (s.streams i) { pid_list = update (s.streams i).pid_list q n } in
    let here : update s.streams i x i ≡ x = update_self s.streams i x in
    record {
      parent = ap (λ (y : Stream). y.parent) here;
      above = update_ne s.streams i up x apart;
      pids = ap (λ (y : Stream). y.pid_list pid) here;
      joined_more = omega arith;
      left_more = omega arith;
    }

told_join-IsStep :
    (i up pid q n : ℕ) (s : Store)
    → i ≢ up
    → (s.streams i).parent ≡ some up
    → (s.streams up).join_pid ≡ true
    → IsStep i up pid q n
        (if pid == q then 1 else 0)
        0
        s
        (tell_parent tell_join (set_pid s i q n) i q)
unfolding tell_parent tell_join joins leaves
told_join-IsStep i up pid q n s apart linked hears =
    let c = set_pid-IsStep i up pid q n s apart in
    let counted : Store = set_pid s i q n in
    let shape : tell_parent tell_join counted i q
        ≡ record counted { notices = joined up q ∷ counted.notices } =
      ap (λ o. elim o as (λ o'. Store) [ none ↦ counted | some j ↦ tell_join counted j q ])
        (c.parent ∙ linked)
      ∙ ap (λ b. if b then record counted { notices = joined up q ∷ counted.notices } else counted)
          (ap (λ (y : Stream). y.join_pid) c.above ∙ hears) in
    subst (IsStep i up pid q n (if pid == q then 1 else 0) 0 s) (sym shape) (record {
      parent = c.parent;
      above = c.above;
      pids = c.pids;
      joined_more = ground arith;
      left_more = omega arith;
    })

told_leave-IsStep :
    (i up pid q n : ℕ) (s : Store)
    → i ≢ up
    → (s.streams i).parent ≡ some up
    → (s.streams up).leave_pid ≡ true
    → IsStep i up pid q n 0
        (if pid == q then 1 else 0)
        s
        (tell_parent tell_leave (set_pid s i q n) i q)
unfolding tell_parent tell_leave joins leaves
told_leave-IsStep i up pid q n s apart linked hears =
    let c = set_pid-IsStep i up pid q n s apart in
    let counted : Store = set_pid s i q n in
    let shape : tell_parent tell_leave counted i q
        ≡ record counted { notices = left up q ∷ counted.notices } =
      ap (λ o. elim o as (λ o'. Store) [ none ↦ counted | some j ↦ tell_leave counted j q ])
        (c.parent ∙ linked)
      ∙ ap (λ b. if b then record counted { notices = left up q ∷ counted.notices } else counted)
          (ap (λ (y : Stream). y.leave_pid) c.above ∙ hears) in
    subst (IsStep i up pid q n 0 (if pid == q then 1 else 0) s) (sym shape) (record {
      parent = c.parent;
      above = c.above;
      pids = c.pids;
      joined_more = omega arith;
      left_more = ground arith;
    })

-- A step that tells as the counter of its PID becomes positive or zero keeps the balance.
IsStep-IsTold :
    {i up pid q n more_joins more_leaves : ℕ} {s t : Store}
    → IsStep i up pid q n more_joins more_leaves s t
    → (if q == pid
        then more_joins + (if ltb 0 ((s.streams i).pid_list pid) then 1 else 0)
        else more_joins)
      ≡ (if q == pid then more_leaves + (if ltb 0 n then 1 else 0) else more_leaves)
    → IsTold i up pid s
    → IsTold i up pid t
IsStep-IsTold {i} {up} {pid} {q} {n} step even told = record {
  linked = step.parent ∙ told.linked;
  hears_join = ap (λ (y : Stream). y.join_pid) step.above ∙ told.hears_join;
  hears_leave = ap (λ (y : Stream). y.leave_pid) step.above ∙ told.hears_leave;
  balance = ground arith;
}

-- A stream that wants a PID wants the same PID under another name.
same_pid :
    (s : Store) (i q pid : ℕ) → q ≡ pid → (s.streams i).pid_list q ≡ (s.streams i).pid_list pid
same_pid s i q pid e = ap (s.streams i).pid_list e

-- Whatever PID a child joins, below 2^16 - 1 times, its parent, another stream with both callbacks,
-- still knows which PIDs the child wants.
pub join-IsTold :
    (i up pid q : ℕ) (s : Store)
    → i ≢ up
    → (s.streams i).pid_list q + 1 < 2 ^ 16
    → IsTold i up pid s
    → IsTold i up pid (join s i q)
unfolding join
join-IsTold i up pid q s apart small told =
    let n : ℕ = u16 ((s.streams i).pid_list q + 1) in
    let word : n ≡ (s.streams i).pid_list q + 1 = omega arith in
    let counted : Store = set_pid s i q n in
    if_each (IsTold i up pid) (leb max_pid q) s
      (if n == 1 then tell_parent tell_join counted i q else counted) told
      (elim (Bool-cases (n == 1)) [
        | inl e ↦ if_then (IsTold i up pid) (n == 1) (tell_parent tell_join counted i q) counted e (
            IsStep-IsTold (told_join-IsStep i up pid q n s apart told.linked told.hears_join)
              (ground (arith, same_pid s i q pid)) told)
        | inr e ↦ if_else (IsTold i up pid) (n == 1) (tell_parent tell_join counted i q) counted e (
            IsStep-IsTold (set_pid-IsStep i up pid q n s apart) (ground (arith, same_pid s i q pid))
              told)
      ])

-- Whatever PID a child leaves, its parent, another stream with both callbacks, still knows which
-- PIDs the child wants.
pub leave-IsTold :
    (i up pid q : ℕ) (s : Store) → i ≢ up → IsTold i up pid s → IsTold i up pid (leave s i q)
unfolding leave
leave-IsTold i up pid q s apart told =
    let c : ℕ = (s.streams i).pid_list q in
    let n : ℕ = c - 1 in
    let counted : Store = set_pid s i q n in
    let lowered : Store = if n == 0 then tell_parent tell_leave counted i q else counted in
    if_each (IsTold i up pid) (leb max_pid q) s (if ltb 0 c then lowered else s) told
      (elim (Bool-cases (ltb 0 c)) [
        | inr f ↦ if_else (IsTold i up pid) (ltb 0 c) lowered s f told
        | inl f ↦ if_then (IsTold i up pid) (ltb 0 c) lowered s f (elim (Bool-cases (n == 0)) [
          | inl e ↦
              if_then (IsTold i up pid) (n == 0) (tell_parent tell_leave counted i q) counted e (
                IsStep-IsTold (told_leave-IsStep i up pid q n s apart told.linked told.hears_leave)
                  (ground (arith, same_pid s i q pid)) told)
          | inr e ↦
              if_else (IsTold i up pid) (n == 0) (tell_parent tell_leave counted i q) counted e (
                IsStep-IsTold (set_pid-IsStep i up pid q n s apart)
                  (ground (arith, same_pid s i q pid)) told)
        ])
      ])
