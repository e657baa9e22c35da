-- ===== src/Alert/Frame.antt =====
-- src/tsa_alert.c: which fields of the handle the operations of the alert engine leave alone, and
-- what they make of the alerts.
use tsanalyzer.Base.{
  ℕ, ◌+◌, ◌≡◌, ◌≢◌, inl, inr, refl, ap, ◌∙◌, List, Bool, true, false, not, ◌&&◌, arith, ltb, leb,
  ◌==◌, ==_iff, if◌then◌else◌, Bool-cases, sub64, codes, u32, update,
}
use tsanalyzer.Handle.{
  AlertId, off, firing, AlertState, Message, critical, resolved, summary, webhook, lua, Handle,
  update_alert, alert_index, alert_index_injective, Notice, Aggregator, AggregatorEntry,
}
use tsanalyzer.Alert.{
  get_name, window_ns, is_firing, webhook_wants, tell, set_alert, should_suppress, announce, raise,
  alert_update, is_suppressed_by_tree,
}
use tsanalyzer.Alert.Check.{pid_timeout_ns, close_window, resolve}

-- The aggregator does not touch the alerts.
alerts-should_suppress :
    (h : Handle) (id : AlertId) (pid : ℕ) (name : List ℕ) (m : Message)
    → (should_suppress h id pid name m).1.alerts ≡ h.alerts
unfolding should_suppress
alerts-should_suppress h id pid name m = ground arith

tell-alerts : (b : Bool) (n : Notice) (h : Handle) → (tell b n h).alerts ≡ h.alerts
tell-alerts true n h = refl
tell-alerts false n h = refl

-- Telling does not touch the alerts.
pub alerts-announce :
    (h : Handle) (id : AlertId) (pid : ℕ) (name : List ℕ)
    → (announce h id pid name).alerts ≡ h.alerts
unfolding announce
alerts-announce h id pid name =
    let (held, h') = should_suppress h id pid name (critical name pid) in
    elim (Bool-cases held) [
      | inl e ↦ rw e (alerts-should_suppress h id pid name (critical name pid))
      | inr e ↦ rw e (
          tell-alerts h'.has_lua (lua name pid (critical name pid)) (
            tell (webhook_wants h' id)
              (webhook h'.input_label name (critical name pid) (codes "CRITICAL")) h')
          ∙ tell-alerts (webhook_wants h' id)
              (webhook h'.input_label name (critical name pid) (codes "CRITICAL")) h'
          ∙ alerts-should_suppress h id pid name (critical name pid))
    ]

update_alert_self :
    (f : AlertId → AlertState) (i : AlertId) (v : AlertState) → update_alert f i v i ≡ v
update_alert_self f i v = ground arith

pub update_alert_ne :
    (f : AlertId → AlertState) (i j : AlertId) (v : AlertState) → i ≢ j → update_alert f i v j ≡ f j
update_alert_ne f i j v ne = elim (Bool-cases (alert_index i == alert_index j)) [
  | inl e ↦ absurd (ne (alert_index_injective i j ((==_iff _ _).0 e)))
  | inr e ↦ rw e
]

-- A property of every alert survives a write that has it.
pub update_alert_each {κ} :
    (P : AlertState → Type κ) (f : AlertId → AlertState) (i : AlertId) (v : AlertState)
    → P v
    → ((j : AlertId) → P (f j))
    → (j : AlertId) → P (update_alert f i v j)
update_alert_each P f i v hv hf j = elim (Bool-cases (alert_index i == alert_index j)) [
  | inl e ↦ rw e hv
  | inr e ↦ rw e (hf j)
]

-- What `raise` makes of an alert.
abbrev pub raised : AlertState → ℕ → AlertState
raised s now = record {
  status = firing;
  last_occurrence_ns = now;
  count_in_window = u32 (s.count_in_window + 1);
  needs_resolve_msg = if is_firing s.status then s.needs_resolve_msg else true;
}

is_firing-true : (s : AlertState) → is_firing s.status ≡ true → s.status ≡ firing
unfolding is_firing
is_firing-true s e = ground arith

pub alerts-raise :
    (h : Handle) (id : AlertId) (name : List ℕ) (pid : ℕ)
    → (raise h id name pid).alerts ≡ update_alert h.alerts id (raised (h.alerts id) h.stc_ns)
unfolding raise
alerts-raise h id name pid =
    let s = h.alerts id in
    let seen : AlertState = record s {
      last_occurrence_ns = h.stc_ns;
      count_in_window = u32 (s.count_in_window + 1);
    } in
    elim (Bool-cases (is_firing s.status)) [
      | inl e ↦
          rw e
            (ap (λ t. update_alert h.alerts id (record seen { status = t })) (is_firing-true s e))
      | inr e ↦ rw e (
          alerts-announce
            (set_alert h id (record seen { status = firing; needs_resolve_msg = true })) id pid
            name)
    ]

-- What `alert_update` makes of the alerts, on every branch.
pub alerts-alert_update :
    (h : Handle) (id : AlertId) (has_error : Bool) (name : List ℕ) (pid : ℕ)
    → (alert_update h id has_error name pid).alerts ≡ (
        if has_error && not (is_suppressed_by_tree h id)
        then update_alert h.alerts id (raised (h.alerts id) h.stc_ns)
        else h.alerts)
unfolding alert_update
alerts-alert_update h id false name pid = refl
alerts-alert_update h id true name pid = elim (Bool-cases (is_suppressed_by_tree h id)) [
  | inl e ↦ rw e refl
  | inr e ↦ rw e (alerts-raise h id name pid)
]

abbrev pub expired : Handle → AlertId → Bool
expired h id =
    is_firing (h.alerts id).status
    && ltb pid_timeout_ns (sub64 h.stc_ns (h.alerts id).last_occurrence_ns)

abbrev pub over : AlertState → AlertState
over s = record s { status = off; needs_resolve_msg = false; count_in_window = 0 }

pub alerts-resolve :
    (id : AlertId) (h : Handle)
    → (resolve id h).alerts
      ≡ (if expired h id then update_alert h.alerts id (over (h.alerts id)) else h.alerts)
unfolding resolve
alerts-resolve id h = elim (Bool-cases (expired h id)) [
  | inl e ↦ rw e (
      tell-alerts h.has_lua (lua (get_name id) 0 (resolved (get_name id))) (
        tell ((h.alerts id).needs_resolve_msg && webhook_wants h id)
          (webhook h.input_label (get_name id) (resolved (get_name id)) (codes "OK"))
          (set_alert h id (over (h.alerts id))))
      ∙ tell-alerts ((h.alerts id).needs_resolve_msg && webhook_wants h id)
          (webhook h.input_label (get_name id) (resolved (get_name id)) (codes "OK"))
          (set_alert h id (over (h.alerts id))))
  | inr e ↦ rw e refl
]

pub alerts-close_window : (i : ℕ) (h : Handle) → (close_window i h).alerts ≡ h.alerts
unfolding close_window
alerts-close_window i h =
    let entry = h.aggregator.entries i in
    elim (Bool-cases (entry.active && leb (window_ns h) (sub64 h.stc_ns entry.window_start_ns))) [
      | inl e ↦ rw e (
          tell-alerts (ltb 1 entry.hit_count && webhook_wants h entry.id)
            (webhook entry.stream_id entry.alert_name
              (summary entry.stream_id entry.hit_count entry.alert_name entry.pid
                h.aggregator.window_ms)
              (codes "SUMMARY"))
            h)
      | inr e ↦ rw e refl
    ]

tell-stc_ns : (b : Bool) (n : Notice) (h : Handle) → (tell b n h).stc_ns ≡ h.stc_ns
tell-stc_ns true n h = refl
tell-stc_ns false n h = refl

tell-aggregator : (b : Bool) (n : Notice) (h : Handle) → (tell b n h).aggregator ≡ h.aggregator
tell-aggregator true n h = refl
tell-aggregator false n h = refl

-- The notices of `resolve`, on the handle where the alert is off.
resolve_told : (id : AlertId) (h : Handle) → Handle
resolve_told id h =
    tell ((h.alerts id).needs_resolve_msg && webhook_wants h id)
      (webhook h.input_label (get_name id) (resolved (get_name id)) (codes "OK"))
      (set_alert h id (over (h.alerts id)))

pub stc_ns-resolve : (id : AlertId) (h : Handle) → (resolve id h).stc_ns ≡ h.stc_ns
unfolding resolve resolve_told
stc_ns-resolve id h = elim (Bool-cases (expired h id)) [
  | inl e ↦ rw e (
      tell-stc_ns h.has_lua (lua (get_name id) 0 (resolved (get_name id))) (resolve_told id h)
      ∙ tell-stc_ns ((h.alerts id).needs_resolve_msg && webhook_wants h id)
          (webhook h.input_label (get_name id) (resolved (get_name id)) (codes "OK"))
          (set_alert h id (over (h.alerts id))))
  | inr e ↦ rw e refl
]

pub aggregator-resolve : (id : AlertId) (h : Handle) → (resolve id h).aggregator ≡ h.aggregator
unfolding resolve resolve_told
aggregator-resolve id h = elim (Bool-cases (expired h id)) [
  | inl e ↦ rw e (
      tell-aggregator h.has_lua (lua (get_name id) 0 (resolved (get_name id))) (resolve_told id h)
      ∙ tell-aggregator ((h.alerts id).needs_resolve_msg && webhook_wants h id)
          (webhook h.input_label (get_name id) (resolved (get_name id)) (codes "OK"))
          (set_alert h id (over (h.alerts id))))
  | inr e ↦ rw e refl
]

-- The window of an entry is over, at clock `now` and window length `length_ns`.
abbrev pub lapsed : ℕ → ℕ → AggregatorEntry → Bool
lapsed length_ns now entry = entry.active && leb length_ns (sub64 now entry.window_start_ns)

abbrev close_notice : ℕ → Handle → Notice
close_notice i h =
    let entry = h.aggregator.entries i in
    webhook entry.stream_id entry.alert_name
      (summary entry.stream_id entry.hit_count entry.alert_name entry.pid h.aggregator.window_ms)
      (codes "SUMMARY")

pub stc_ns-close_window : (i : ℕ) (h : Handle) → (close_window i h).stc_ns ≡ h.stc_ns
unfolding close_window
stc_ns-close_window i h =
    elim (Bool-cases (lapsed (window_ns h) h.stc_ns (h.aggregator.entries i))) [
      | inl e ↦ rw e (
          tell-stc_ns
            (ltb 1 (h.aggregator.entries i).hit_count
              && webhook_wants h (h.aggregator.entries i).id)
            (close_notice i h) h)
      | inr e ↦ rw e refl
    ]

pub aggregator-close_window :
    (i : ℕ) (h : Handle)
    → (close_window i h).aggregator ≡ (
        if lapsed (window_ns h) h.stc_ns (h.aggregator.entries i)
        then record (h.aggregator) {
          entries =
              update h.aggregator.entries i (record (h.aggregator.entries i) { active = false });
        }
        else h.aggregator)
unfolding close_window
aggregator-close_window i h =
    elim (Bool-cases (lapsed (window_ns h) h.stc_ns (h.aggregator.entries i))) [
      | inl e ↦ rw e (
          ap
            (λ (a : Aggregator). record a {
              entries = update a.entries i (record (h.aggregator.entries i) { active = false });
            })
            (tell-aggregator
              (ltb 1 (h.aggregator.entries i).hit_count
                && webhook_wants h (h.aggregator.entries i).id)
              (close_notice i h) h))
      | inr e ↦ rw e refl
    ]
