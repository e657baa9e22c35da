-- ===== src/Alert.antt =====
-- src/tsa_alert.c and the tables of include/tsa_alert.h: the alert engine. Log lines are not
-- modelled; a notice to the webhook or to Lua is appended to `notices`. A message is kept as the
-- values that `snprintf` prints, and is short enough for its buffer.
pub mod Check
pub mod Frame
pub mod Invariant
pub mod Resolution
pub mod Window
use tsanalyzer.Base.{
  ℕ, ◌+◌, ◌-◌, ◌*◌, ◌%◌, ◌^◌, List, [], ◌∷◌, ◌++◌, Bool, true, false, not, ◌&&◌, ◌||◌,
}
use tsanalyzer.Base.{ltb, leb, ◌==◌, if◌then◌else◌, u32, u64, sub64, take, update, codes, bit_and}
use tsanalyzer.Base.Loops.{for_range}
use tsanalyzer.Handle.{
  AlertId, sync, pat, pmt, cc, crc, pcr, transport, pts, tstd, entropy, sdt, nit, cc_missing,
  alert_index, AlertStatus, off, firing, AlertState, Message, critical, resolved, summary,
  AggregatorEntry, Aggregator, Notice, webhook, lua, EsTrack, Handle, update_alert, alert_of_index,
}

-- tsa_alert_get_mask
unfoldable pub get_mask : AlertId → ℕ
get_mask sync = 2 ^ 0
get_mask pat = 2 ^ 1
get_mask pmt = 2 ^ 3
get_mask AlertId.pid = 2 ^ 4
get_mask cc = 2 ^ 2
get_mask transport = 2 ^ 5
get_mask crc = 2 ^ 6
get_mask pcr = 2 ^ 7
get_mask pts = 2 ^ 8
get_mask tstd = 2 ^ 9
get_mask entropy = 2 ^ 10
get_mask sdt = 2 ^ 11
get_mask nit = 2 ^ 12
get_mask cc_missing = 2 ^ 13

-- tsa_alert_get_name
unfoldable pub get_name : AlertId → List ℕ
get_name sync = codes "SYNC"
get_name pat = codes "PAT"
get_name pmt = codes "PMT"
get_name AlertId.pid = codes "PID"
get_name cc = codes "CC"
get_name transport = codes "TRANSPORT"
get_name crc = codes "CRC"
get_name pcr = codes "PCR"
get_name pts = codes "PTS"
get_name tstd = codes "TSTD"
get_name entropy = codes "ENTROPY"
get_name sdt = codes "SDT"
get_name nit = codes "NIT"
get_name cc_missing = codes "CC_MISSING"

abbrev pub aggregator_size : ℕ
aggregator_size = 4096

-- alert_aggregator_hash
unfoldable pub aggregator_hash : AlertId → ℕ → ℕ
aggregator_hash id pid = u32 (alert_index id * 31 + pid) % aggregator_size

-- `window_ms` in nanoseconds
abbrev pub window_ns : Handle → ℕ
window_ns h = u64 (h.aggregator.window_ms * 1000000)

-- `input_label`, or "unknown" where it is empty
unfoldable pub label_of : List ℕ → List ℕ
label_of [] = codes "unknown"
label_of (c ∷ cs) = c ∷ cs

-- The entry describes this alert and its window is open.
unfoldable pub in_window : Handle → AlertId → ℕ → Bool
in_window h id pid =
    let entry = h.aggregator.entries (aggregator_hash id pid) in
    entry.active
    && alert_index entry.id == alert_index id
    && entry.pid == pid
    && ltb (sub64 h.stc_ns entry.window_start_ns) (window_ns h)

abbrev pub set_entry : Handle → ℕ → AggregatorEntry → Handle
set_entry h i entry = record h {
  aggregator = record (h.aggregator) { entries = update h.aggregator.entries i entry };
}

-- tsa_alert_should_suppress
unfoldable pub should_suppress : Handle → AlertId → ℕ → List ℕ → Message → Bool × Handle
should_suppress h id pid name message =
    let i = aggregator_hash id pid in
    let entry = h.aggregator.entries i in
    if h.aggregator.window_ms == 0
    then (false, h)
    else if in_window h id pid
    then (
      true,
      set_entry h i
          (record entry { hit_count = u32 (entry.hit_count + 1); last_hit_ns = h.stc_ns }),
    )
    else (
      false,
      set_entry h i (record {
        id = id;
        pid = pid;
        hit_count = 1;
        last_hit_ns = h.stc_ns;
        window_start_ns = h.stc_ns;
        stream_id = take 63 (label_of h.input_label);
        alert_name = take 31 name;
        message = message;
        active = true;
      }),
    )

unfoldable pub is_firing : AlertStatus → Bool
is_firing off = false
is_firing firing = true

-- The alerts that a loss of sync explains.
unfoldable pub explained_by_sync : AlertId → Bool
explained_by_sync cc = true
explained_by_sync pcr = true
explained_by_sync tstd = true
explained_by_sync pat = true
explained_by_sync pmt = true
explained_by_sync sdt = true
explained_by_sync nit = true
explained_by_sync transport = true
explained_by_sync crc = true
explained_by_sync pts = true
explained_by_sync _ = false

-- The alerts that missing packets explain.
unfoldable pub explained_by_cc : AlertId → Bool
explained_by_cc pcr = true
explained_by_cc tstd = true
explained_by_cc _ = false

-- tsa_alert_is_suppressed_by_tree
unfoldable pub is_suppressed_by_tree : Handle → AlertId → Bool
is_suppressed_by_tree h id =
    is_firing (h.alerts sync).status && explained_by_sync id
    || is_firing (h.alerts cc).status && explained_by_cc id

-- The webhook is set and the filter lets this alert through; a filter of 0 lets all through.
unfoldable pub webhook_wants : Handle → AlertId → Bool
webhook_wants h id =
    let user_mask = if h.alert_filter_mask == 0 then 2 ^ 64 - 1 else h.alert_filter_mask in
    h.has_webhook && not (bit_and user_mask (get_mask id) == 0)

abbrev pub tell : Bool → Notice → Handle → Handle
tell wanted notice h = if wanted then record h { notices = h.notices ++ (notice ∷ []) } else h

-- The notices of an alert that starts to fire, unless the aggregator holds them back.
unfoldable pub announce : Handle → AlertId → ℕ → List ℕ → Handle
announce h id pid name =
    let msg = critical name pid in
    let (suppressed, h') = should_suppress h id pid name msg in
    if suppressed
    then h'
    else tell h'.has_lua (lua name pid msg)
        (tell (webhook_wants h' id) (webhook h'.input_label name msg (codes "CRITICAL")) h')

abbrev pub set_alert : Handle → AlertId → AlertState → Handle
set_alert h id s = record h { alerts = update_alert h.alerts id s }

-- An error that the dependency tree lets through.
unfoldable pub raise : Handle → AlertId → List ℕ → ℕ → Handle
raise h id name pid =
    let s = h.alerts id in
    let seen = record s {
      last_occurrence_ns = h.stc_ns;
      count_in_window = u32 (s.count_in_window + 1);
    } in
    if is_firing s.status
    then set_alert h id seen
    else announce (set_alert h id (record seen { status = firing; needs_resolve_msg = true })) id
        pid name

-- tsa_alert_update
unfoldable pub alert_update : Handle → AlertId → Bool → List ℕ → ℕ → Handle
alert_update h id has_error name pid =
    if has_error then (if is_suppressed_by_tree h id then h else raise h id name pid) else h
