-- ===== src/StreamTree.antt =====
-- src/tsa_stream.c and include/tsa_stream.h: streams that subscribe to others. A stream is named by
-- its index in the store; pointers to streams are valid. The callbacks belong to the modules that
-- own the streams: each call is recorded as a notice.
pub mod Subscriptions
pub mod Requests
use tsanalyzer.Base.{ℕ, zero, suc, ◌+◌, ◌-◌, ◌%◌, ◌^◌, List, [], ◌∷◌, ◌++◌, Option, none, some}
use tsanalyzer.Base.{
  Bool, true, false, not, ◌&&◌, ltb, leb, ◌==◌, if◌then◌else◌, length, update, u16,
}

-- TSA_MAX_PID and TSA_MAX_STREAM_CHILDREN
abbrev pub max_pid : ℕ
max_pid = 8192

abbrev pub max_stream_children : ℕ
max_stream_children = 16

-- A call of `join_pid` or `leave_pid` of a stream.
pub data Notice : Type 0 where
  joined left : (stream pid : ℕ) → Notice

-- struct tsa_stream_s, without `self` and `on_ts`; of a callback, whether it is set. The length of
-- `children` is `child_count`.
pub record Stream : Type 0 where
  pub parent : Option ℕ
  pub children : List ℕ
  pub join_pid : Bool
  pub leave_pid : Bool
  pub pid_list : ℕ → ℕ

-- The streams, and the notices so far, the last first.
pub record Store : Type 0 where
  pub streams : ℕ → Stream
  pub notices : List Notice

abbrev pub put_stream : Store → ℕ → Stream → Store
put_stream s i x = record s { streams = update s.streams i x }

unfoldable pub tell_join : Store → ℕ → ℕ → Store
tell_join s i pid =
    if (s.streams i).join_pid then record s { notices = joined i pid ∷ s.notices } else s

unfoldable pub tell_leave : Store → ℕ → ℕ → Store
tell_leave s i pid =
    if (s.streams i).leave_pid then record s { notices = left i pid ∷ s.notices } else s

-- The parent of a stream, if it has one, is told.
unfoldable pub tell_parent : (Store → ℕ → ℕ → Store) → Store → ℕ → ℕ → Store
tell_parent tell s i pid = elim (s.streams i).parent [ none ↦ s | some up ↦ tell s up pid ]

abbrev pub set_pid : Store → ℕ → ℕ → ℕ → Store
set_pid s i pid n =
    put_stream s i (record (s.streams i) { pid_list = update (s.streams i).pid_list pid n })

unfoldable pub join : Store → ℕ → ℕ → Store
join s i pid =
    let n = u16 ((s.streams i).pid_list pid + 1) in
    let counted = set_pid s i pid n in
    if leb max_pid pid then s else if n == 1 then tell_parent tell_join counted i pid else counted

unfoldable pub leave : Store → ℕ → ℕ → Store
leave s i pid =
    let n = (s.streams i).pid_list pid - 1 in
    let counted = set_pid s i pid n in
    if leb max_pid pid
    then s
    else if ltb 0 ((s.streams i).pid_list pid)
    then (if n == 0 then tell_parent tell_leave counted i pid else counted)
    else s

unfoldable pub check_pid : Store → ℕ → ℕ → Bool
check_pid s i pid = not (leb max_pid pid) && ltb 0 ((s.streams i).pid_list pid)

-- `tsa_stream_destroy`: the loop from `pid` on.
unfoldable pub destroy_from : ℕ → ℕ → Store → ℕ → Store
destroy_from zero pid s i = s
destroy_from (suc rounds) pid s i =
    let next = if ltb 0 ((s.streams i).pid_list pid) then leave s i pid else s in
    destroy_from rounds (pid + 1) next i

unfoldable pub destroy : Store → ℕ → Store
destroy s i = destroy_from max_pid 0 s i

-- The loops over the PIDs of a child that is attached or detached, from `pid` on.
unfoldable pub tell_all : (Store → ℕ → ℕ → Store) → ℕ → ℕ → Store → ℕ → (ℕ → ℕ) → Store
tell_all tell zero pid s parent pids = s
tell_all tell (suc rounds) pid s parent pids =
    let told = if ltb 0 (pids pid) then tell s parent pid else s in
    tell_all tell rounds (pid + 1) told parent pids

-- -1 is `false`.
unfoldable pub attach : Store → ℕ → ℕ → Bool × Store
attach s parent child =
    let p = s.streams parent in
    let grown = put_stream s parent (record p { children = p.children ++ (child ∷ []) }) in
    let linked = put_stream grown child (record (grown.streams child) { parent = some parent }) in
    if leb max_stream_children (length p.children)
    then (false, s)
    else (true, tell_all tell_join max_pid 0 linked parent (linked.streams child).pid_list)

-- The children without the first `child`, `none` if it is not among them.
unfoldable pub remove_child : ℕ → List ℕ → Option (List ℕ)
remove_child child [] = none
remove_child child (c ∷ cs) =
    if c == child
    then some cs
    else elim (remove_child child cs) [ none ↦ none | some rest ↦ some (c ∷ rest) ]

unfoldable pub detach : Store → ℕ → ℕ → Bool × Store
detach s parent child =
    let told = tell_all tell_leave max_pid 0 s parent (s.streams child).pid_list in
    let p = told.streams parent in
    elim (remove_child child (s.streams parent).children) [
      | none ↦ (false, s)
      | some rest ↦
          let shrunk = put_stream told parent (record p { children = rest }) in
          (true, put_stream shrunk child (record (shrunk.streams child) { parent = none }))
    ]
