-- ===== src/Alert/Window.antt =====
-- src/tsa_alert.c, `tsa_alert_should_suppress`: one aggregation window tells of an alert once.
pub mod Flapping
use tsanalyzer.Base.{
  ℕ, ◌+◌, ◌<◌, ◌≡◌, ◌≢◌, inl, inr, refl, ap, ◌∙◌, List, Bool, true, false, arith, Bool-cases, sub64,
  u32, codes,
}
use tsanalyzer.Handle.{
  AlertId, firing, Message, critical, webhook, lua, Notice, Handle, AggregatorEntry,
}
use tsanalyzer.Alert.{
  tell, webhook_wants, set_alert, aggregator_hash, window_ns, in_window, should_suppress, announce,
  raise, alert_update, is_firing, is_suppressed_by_tree,
}

-- The entry where an alert of this PID is counted.
abbrev pub entry_of : Handle → AlertId → ℕ → AggregatorEntry
entry_of h id pid = h.aggregator.entries (aggregator_hash id pid)

-- A first alert opens a window at the clock, with one hit.
should_suppress_opens :
    (h : Handle) (id : AlertId) (pid : ℕ) (name : List ℕ) (m : Message)
    → h.aggregator.window_ms ≢ 0
    → in_window h id pid ≡ false
    → let (held, h') = should_suppress h id pid name m in
      (held ≡ false)
      × ((entry_of h' id pid).active ≡ true)
      × ((entry_of h' id pid).id ≡ id)
      × ((entry_of h' id pid).pid ≡ pid)
      × ((entry_of h' id pid).window_start_ns ≡ h.stc_ns)
      × ((entry_of h' id pid).hit_count ≡ 1)
      × (h'.aggregator.window_ms ≡ h.aggregator.window_ms)
unfolding should_suppress
should_suppress_opens h id pid name m on f = ground arith

-- An alert in an open window is held back and counted.
should_suppress_holds :
    (h : Handle) (id : AlertId) (pid : ℕ) (name : List ℕ) (m : Message)
    → h.aggregator.window_ms ≢ 0
    → in_window h id pid ≡ true
    → let (held, h') = should_suppress h id pid name m in
      (held ≡ true)
      × (h'.notices ≡ h.notices)
      × ((entry_of h' id pid).hit_count ≡ u32 ((entry_of h id pid).hit_count + 1))
      × ((entry_of h' id pid).window_start_ns ≡ (entry_of h id pid).window_start_ns)
unfolding should_suppress
should_suppress_holds h id pid name m on f = ground arith

tell_keeps :
    (b : Bool) (n : Notice) (h : Handle)
    → ((tell b n h).aggregator ≡ h.aggregator) × ((tell b n h).stc_ns ≡ h.stc_ns)
tell_keeps true n h = (refl, refl)
tell_keeps false n h = (refl, refl)

-- Telling of an alert leaves the aggregator as `should_suppress` makes it.
pub aggregator-announce :
    (h : Handle) (id : AlertId) (pid : ℕ) (name : List ℕ)
    → (announce h id pid name).aggregator
      ≡ (should_suppress h id pid name (critical name pid)).1.aggregator
unfolding announce
aggregator-announce h id pid name =
    let (held, h') = should_suppress h id pid name (critical name pid) in
    let msg = critical name pid in
    let first = webhook h'.input_label name msg (codes "CRITICAL") in
    elim (Bool-cases held) [
      | inl e ↦ rw e refl
      | inr e ↦ rw e (
          (tell_keeps h'.has_lua (lua name pid msg) (tell (webhook_wants h' id) first h')).0
          ∙ (tell_keeps (webhook_wants h' id) first h').0)
    ]

-- The handle when an alert that was off is told.
abbrev turned_on : Handle → AlertId → Handle
turned_on h id =
    let s = h.alerts id in
    set_alert h id (record s {
      status = firing;
      last_occurrence_ns = h.stc_ns;
      count_in_window = u32 (s.count_in_window + 1);
      needs_resolve_msg = true;
    })

pub raise_of_off :
    (h : Handle) (id : AlertId) (name : List ℕ) (pid : ℕ)
    → is_firing (h.alerts id).status ≡ false
    → raise h id name pid ≡ announce (turned_on h id) id pid name
unfolding raise
raise_of_off h id name pid o = rw o

notices-raise_of_firing :
    (h : Handle) (id : AlertId) (name : List ℕ) (pid : ℕ)
    → is_firing (h.alerts id).status ≡ true
    → (raise h id name pid).notices ≡ h.notices
unfolding raise
notices-raise_of_firing h id name pid o = rw o

notices-announce_held :
    (h : Handle) (id : AlertId) (pid : ℕ) (name : List ℕ)
    → h.aggregator.window_ms ≢ 0
    → in_window h id pid ≡ true
    → (announce h id pid name).notices ≡ h.notices
unfolding announce
notices-announce_held h id pid name on w =
    let held = should_suppress_holds h id pid name (critical name pid) on w in rw held.0 held.1

-- An alert that starts to fire outside a window opens one.
pub raise_opens :
    (h : Handle) (id : AlertId) (name : List ℕ) (pid : ℕ)
    → is_firing (h.alerts id).status ≡ false
    → h.aggregator.window_ms ≢ 0
    → in_window h id pid ≡ false
    → let a = (raise h id name pid).aggregator in
      let entry = a.entries (aggregator_hash id pid) in
      (entry.active ≡ true)
      × (entry.id ≡ id)
      × (entry.pid ≡ pid)
      × (entry.window_start_ns ≡ h.stc_ns)
      × (a.window_ms ≡ h.aggregator.window_ms)
unfolding in_window
raise_opens h id name pid o on f =
    let h' = turned_on h id in
    let opened = should_suppress_opens h' id pid name (critical name pid) on f in
    rw (raise_of_off h id name pid o, aggregator-announce h' id pid name)
      (opened.1, opened.2, opened.3, opened.4, opened.6)

-- Inside an open window no error of the same alert and PID tells anything, whatever the state of
-- the alert is.
pub in_window_silent :
    (h : Handle) (id : AlertId) (has_error : Bool) (name : List ℕ) (pid : ℕ)
    → h.aggregator.window_ms ≢ 0
    → in_window h id pid ≡ true
    → (alert_update h id has_error name pid).notices ≡ h.notices
unfolding alert_update in_window
in_window_silent h id false name pid on w = refl
in_window_silent h id true name pid on w = elim (Bool-cases (is_suppressed_by_tree h id)) [
  | inl t ↦ rw t refl
  | inr t ↦ rw t (elim (Bool-cases (is_firing (h.alerts id).status)) [
    | inl o ↦ notices-raise_of_firing h id name pid o
    | inr o ↦
        ap (λ (k : Handle). k.notices) (raise_of_off h id name pid o)
        ∙ notices-announce_held (turned_on h id) id pid name on w
  ])
]
