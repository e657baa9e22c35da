-- ===== src/Alert/Window/Flapping.antt =====
-- src/tsa_alert.c: an alert that goes off and on again in its window, with other work in between.
use tsanalyzer.Base.{
  ℕ, ◌<◌, ◌≡◌, ◌≢◌, inl, inr, sym, ap, ◌∙◌, subst, List, Bool, true, false, ◌*◌, arith, Bool-cases,
  sub64, u64, update, update_ne, update_self, ℕ_discrete, ◌==◌, if_then, if_each,
}
use tsanalyzer.Handle.{AlertId, Message, critical, Handle, AggregatorEntry, Aggregator}
use tsanalyzer.Alert.{
  aggregator_hash, window_ns, in_window, should_suppress, raise, alert_update, is_firing,
  is_suppressed_by_tree,
}
use tsanalyzer.Alert.Check.{close_window}
use tsanalyzer.Alert.Frame.{aggregator-close_window, lapsed}
use tsanalyzer.Alert.Window.{
  turned_on, raise_of_off, aggregator-announce, raise_opens, in_window_silent,
}

-- The window that the alert opened at the clock `start` is recorded.
record IsOpen (id : AlertId) (pid start window_ms : ℕ) (a : Aggregator) : Type 0 where
  active : (a.entries (aggregator_hash id pid)).active ≡ true
  same_id : (a.entries (aggregator_hash id pid)).id ≡ id
  same_pid : (a.entries (aggregator_hash id pid)).pid ≡ pid
  started : (a.entries (aggregator_hash id pid)).window_start_ns ≡ start
  length_eq : a.window_ms ≡ window_ms

-- What may happen between the alert that opens a window and a later error: errors and good reports
-- of the same alert and PID within the window, those of alerts that the aggregator counts elsewhere,
-- the closing of windows that are over, and all that leaves the aggregator alone, such as the
-- clock, the end of the alert, and the analysis of other packets.
pub data Later (h : Handle) (id : AlertId) (pid : ℕ) : Handle → Type 0 where
  opened : (name : List ℕ) → Later h id pid (raise h id name pid)
  again :
      (k : Handle) (has_error : Bool) (name : List ℕ)
      → Later h id pid k
      → sub64 k.stc_ns h.stc_ns < window_ns h
      → Later h id pid (alert_update k id has_error name pid)
  elsewhere :
      (k : Handle) (other : AlertId) (has_error : Bool) (name : List ℕ) (other_pid : ℕ)
      → Later h id pid k
      → aggregator_hash id pid ≢ aggregator_hash other other_pid
      → Later h id pid (alert_update k other has_error name other_pid)
  closed :
      (k : Handle) (i : ℕ)
      → Later h id pid k
      → sub64 k.stc_ns h.stc_ns < window_ns h
      → Later h id pid (close_window i k)
  unrelated : (k k' : Handle) → Later h id pid k → k'.aggregator ≡ k.aggregator → Later h id pid k'

-- An update leaves the aggregator, or makes it what `tsa_alert_should_suppress` makes it.
aggregator-alert_update :
    (P : Aggregator → Type 0) (k : Handle) (id : AlertId) (has_error : Bool) (name : List ℕ)
    (pid : ℕ)
    → P k.aggregator
    → P (should_suppress (turned_on k id) id pid name (critical name pid)).1.aggregator
    → P (alert_update k id has_error name pid).aggregator
unfolding alert_update raise
aggregator-alert_update P k id false name pid kept changed = kept
aggregator-alert_update P k id true name pid kept changed =
    let raised = raise k id name pid in
    if_each (λ (g : Handle). P g.aggregator) (is_suppressed_by_tree k id) k raised kept
      (elim (Bool-cases (is_firing (k.alerts id).status)) [
        | inl on ↦
            if_then (λ (g : Handle). P g.aggregator) (is_firing (k.alerts id).status) _ _ on kept
        | inr off ↦
            subst (λ (g : Handle). P g.aggregator) (sym (raise_of_off k id name pid off))
              (subst P (sym (aggregator-announce (turned_on k id) id pid name)) changed)
      ])

-- An entry that is written elsewhere leaves the window open, and so does one that only counts.
IsOpen-update :
    (a : Aggregator) (i : ℕ) (entry : AggregatorEntry) {id : AlertId} {pid start window_ms : ℕ}
    → i ≢ aggregator_hash id pid
    → IsOpen id pid start window_ms a
    → IsOpen id pid start window_ms (record a { entries = update a.entries i entry })
IsOpen-update a i entry {id} {pid} ne v =
    let same = update_ne a.entries i (aggregator_hash id pid) entry ne in
    record {
      active = ap (λ (e : AggregatorEntry). e.active) same ∙ v.active;
      same_id = ap (λ (e : AggregatorEntry). e.id) same ∙ v.same_id;
      same_pid = ap (λ (e : AggregatorEntry). e.pid) same ∙ v.same_pid;
      started = ap (λ (e : AggregatorEntry). e.window_start_ns) same ∙ v.started;
      length_eq = v.length_eq;
    }

IsOpen-count :
    (a : Aggregator) (hits last : ℕ) {id : AlertId} {pid start window_ms : ℕ}
    → IsOpen id pid start window_ms a
    → IsOpen id pid start window_ms (record a {
      entries =
          update a.entries
            (aggregator_hash id pid)
            (record (a.entries (aggregator_hash id pid)) { hit_count = hits; last_hit_ns = last });
    })
IsOpen-count a hits last {id} {pid} v =
    let same =
      update_self a.entries (aggregator_hash id pid)
        (record (a.entries (aggregator_hash id pid)) { hit_count = hits; last_hit_ns = last }) in
    record {
      active = ap (λ (e : AggregatorEntry). e.active) same ∙ v.active;
      same_id = ap (λ (e : AggregatorEntry). e.id) same ∙ v.same_id;
      same_pid = ap (λ (e : AggregatorEntry). e.pid) same ∙ v.same_pid;
      started = ap (λ (e : AggregatorEntry). e.window_start_ns) same ∙ v.started;
      length_eq = v.length_eq;
    }

should_suppress_elsewhere :
    (k : Handle) (other : AlertId) (other_pid : ℕ) (name : List ℕ) (m : Message) {id : AlertId}
    {pid start window_ms : ℕ}
    → aggregator_hash other other_pid ≢ aggregator_hash id pid
    → IsOpen id pid start window_ms k.aggregator
    → IsOpen id pid start window_ms (should_suppress k other other_pid name m).1.aggregator
unfolding should_suppress
should_suppress_elsewhere k other other_pid name m ne v =
    elim (Bool-cases (k.aggregator.window_ms == 0)) [
      | inl e ↦ rw e v
      | inr e ↦ rw e (elim (Bool-cases (in_window k other other_pid)) [
        | inl f ↦ rw f (IsOpen-update k.aggregator (aggregator_hash other other_pid) _ ne v)
        | inr f ↦ rw f (IsOpen-update k.aggregator (aggregator_hash other other_pid) _ ne v)
      ])
    ]

should_suppress_again :
    (k : Handle) (id : AlertId) (pid : ℕ) (name : List ℕ) (m : Message) {start window_ms : ℕ}
    → in_window k id pid ≡ true
    → IsOpen id pid start window_ms k.aggregator
    → IsOpen id pid start window_ms (should_suppress k id pid name m).1.aggregator
unfolding should_suppress
should_suppress_again k id pid name m open_window v =
    elim (Bool-cases (k.aggregator.window_ms == 0)) [
      | inl e ↦ rw e v
      | inr e ↦ rw (e, open_window) (IsOpen-count k.aggregator _ _ v)
    ]

IsOpen-in_window :
    (k : Handle) {id : AlertId} {pid start window_ms : ℕ}
    → IsOpen id pid start window_ms k.aggregator
    → sub64 k.stc_ns start < u64 (window_ms * 1000000)
    → in_window k id pid ≡ true
unfolding in_window
IsOpen-in_window k v soon = ground (arith, v.active, v.same_id, v.same_pid, v.started, v.length_eq)

-- The window that is not over stays when windows that are over are closed.
IsOpen-close_window :
    (k : Handle) (i : ℕ) {id : AlertId} {pid start window_ms : ℕ}
    → IsOpen id pid start window_ms k.aggregator
    → sub64 k.stc_ns start < u64 (window_ms * 1000000)
    → IsOpen id pid start window_ms (close_window i k).aggregator
IsOpen-close_window k i {id} {pid} {start} {window_ms} v soon =
    subst (IsOpen id pid start window_ms) (sym (aggregator-close_window i k))
      (elim (ℕ_discrete i (aggregator_hash id pid)) [
        | yes e ↦
            let entry = k.aggregator.entries (aggregator_hash id pid) in
            let going : lapsed (window_ns k) k.stc_ns entry ≡ false =
              ground (arith, v.started, v.length_eq) in
            let going_there : lapsed (window_ns k) k.stc_ns (k.aggregator.entries i) ≡ false =
              ap (λ j. lapsed (window_ns k) k.stc_ns (k.aggregator.entries j)) e ∙ going in
            rw going_there v
        | no ne ↦
            if_each (IsOpen id pid start window_ms)
              (lapsed (window_ns k) k.stc_ns (k.aggregator.entries i))
              (record (k.aggregator) {
                entries =
                    update k.aggregator.entries i
                      (record (k.aggregator.entries i) { active = false });
              })
              k.aggregator (IsOpen-update k.aggregator i _ ne v) v
      ])

Later-IsOpen :
    {h : Handle} {id : AlertId} {pid : ℕ}
    → is_firing (h.alerts id).status ≡ false
    → h.aggregator.window_ms ≢ 0
    → in_window h id pid ≡ false
    → {k : Handle} → Later h id pid k
    → IsOpen id pid h.stc_ns h.aggregator.window_ms k.aggregator
Later-IsOpen {h} {id} {pid} o on f (opened name) =
    let (a, b, c, d, e) = raise_opens h id name pid o on f in
    record { active = a; same_id = b; same_pid = c; started = d; length_eq = e }
Later-IsOpen {h} {id} {pid} o on f (again k has_error name l soon) =
    let v = Later-IsOpen o on f l in
    aggregator-alert_update (IsOpen id pid h.stc_ns h.aggregator.window_ms) k id has_error name pid
      v
      (should_suppress_again (turned_on k id) id pid name (critical name pid)
        (IsOpen-in_window (turned_on k id) v soon) v)
Later-IsOpen {h} {id} {pid} o on f (elsewhere k other has_error name other_pid l ne) =
    let v = Later-IsOpen o on f l in
    aggregator-alert_update (IsOpen id pid h.stc_ns h.aggregator.window_ms) k other has_error name
      other_pid v
      (should_suppress_elsewhere (turned_on k other) other other_pid name (critical name other_pid)
        (λ e. ne (sym e)) v)
Later-IsOpen o on f (closed k i l soon) = IsOpen-close_window k i (Later-IsOpen o on f l) soon
Later-IsOpen {h} {id} {pid} o on f (unrelated k k' l same) =
    subst (IsOpen id pid h.stc_ns h.aggregator.window_ms) (sym same) (Later-IsOpen o on f l)

-- An alert that is off, outside a window of its own and with windows in use, opens a window by
-- firing. While that window lasts no later error of the same alert and PID tells anything, however
-- often the alert went off and on again before it, as long as no other alert or PID with the same
-- place in the aggregator was reported meanwhile.
pub window_tells_once :
    (h later : Handle) (id : AlertId) (name : List ℕ) (pid : ℕ)
    → is_firing (h.alerts id).status ≡ false
    → h.aggregator.window_ms ≢ 0
    → in_window h id pid ≡ false
    → Later h id pid later
    → sub64 later.stc_ns h.stc_ns < window_ns h
    → (alert_update later id true name pid).notices ≡ later.notices
window_tells_once h later id name pid o on f l soon =
    let v = Later-IsOpen o on f l in
    in_window_silent later id true name pid (λ e. on (sym v.length_eq ∙ e))
      (IsOpen-in_window later v soon)
