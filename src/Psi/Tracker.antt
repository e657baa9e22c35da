-- ===== src/Psi/Tracker.antt =====
-- src/tsa_psi.c, `tsa_update_pid_tracker`: the list of active PIDs and the map to it.
use tsanalyzer.Base.{ℕ, ◌<◌, ◌≤◌, ◌≡◌, ap, ◌∙◌, List, [], ◌∷◌, ◌++◌, Option, none, some, arith}
use tsanalyzer.Base.{
  ltb, ◌==◌, if◌then◌else◌, length, get_elem?, get_elem?-push, lt_length, length-append, Bool-cases,
  Option-cases, inl, inr, update,
}
use tsanalyzer.Handle.{Handle}
use tsanalyzer.Psi.{
  max_active_pids, add_active, see_new_pid, precompile_pid_labels, update_pid_tracker,
}

-- A map and a list that are inverse to each other; the list fits in its array.
pub record Agrees (pids : List ℕ) (index : ℕ → Option ℕ) : Type 0 where
  pub fits : length pids ≤ max_active_pids
  pub listed : (p i : ℕ) → index p ≡ some i → get_elem? pids i ≡ some p
  pub indexed : (p i : ℕ) → get_elem? pids i ≡ some p → index p ≡ some i

abbrev pub IsTracked : Handle → Type 0
IsTracked h = Agrees h.pid_active_list h.pid_to_active_idx

Agrees-push :
    (pids : List ℕ) (index : ℕ → Option ℕ) (p : ℕ)
    → index p ≡ none
    → length pids < max_active_pids
    → Agrees pids index
    → Agrees (pids ++ (p ∷ [])) (update index p (some (length pids)))
Agrees-push pids index p new room a = record {
  fits = omega (arith, length-append pids (p ∷ []));
  listed = λ q i e. get_elem?-push pids p i ∙ ground (arith, a.listed q i, lt_length pids i q);
  indexed = λ q i e. ground (arith, a.indexed q i, get_elem?-push pids p i);
}

add_active-IsTracked :
    (h : Handle) (p : ℕ) → h.pid_to_active_idx p ≡ none → IsTracked h → IsTracked (add_active h p)
unfolding add_active
add_active-IsTracked h p new t =
    elim (Bool-cases (ltb (length h.pid_active_list) max_active_pids)) [
      | inl e ↦ rw e (Agrees-push h.pid_active_list h.pid_to_active_idx p new (ground arith) t)
      | inr e ↦ rw e t
    ]

-- The rest of the work on a new PID does not touch the list and the map.
see_new_pid_frame :
    (h : Handle) (p : ℕ)
    → ((see_new_pid h p).pid_active_list ≡ (add_active h p).pid_active_list)
      × ((see_new_pid h p).pid_to_active_idx ≡ (add_active h p).pid_to_active_idx)
unfolding see_new_pid precompile_pid_labels
see_new_pid_frame h p = ground arith

-- A PID that has no index goes through `see_new_pid`; any other changes nothing.
pub update_pid_tracker_new :
    (h : Handle) (p : ℕ) → h.pid_to_active_idx p ≡ none → update_pid_tracker h p ≡ see_new_pid h p
unfolding update_pid_tracker
update_pid_tracker_new h p e = ap (λ o. elim o [ none ↦ see_new_pid h p | some i ↦ h ]) e

pub update_pid_tracker_old :
    (h : Handle) (p i : ℕ) → h.pid_to_active_idx p ≡ some i → update_pid_tracker h p ≡ h
unfolding update_pid_tracker
update_pid_tracker_old h p i e = ap (λ o. elim o [ none ↦ see_new_pid h p | some i ↦ h ]) e

-- The tracker's list of active PIDs and its map from a PID to an index stay inverse to each other,
-- and the list never outgrows its array.
pub update_pid_tracker-IsTracked :
    (h : Handle) (p : ℕ) → IsTracked h → IsTracked (update_pid_tracker h p)
update_pid_tracker-IsTracked h p t = elim (Option-cases (h.pid_to_active_idx p)) [
  | inl e ↦
      rw (update_pid_tracker_new h p e, (see_new_pid_frame h p).0, (see_new_pid_frame h p).1)
        (add_active-IsTracked h p e t)
  | inr (i, e) ↦ rw (update_pid_tracker_old h p i e) t
]

-- What the tracker returns: the index a PID already has, else the next one while the list has room,
-- else -1. No other PID's index changes.
pub update_pid_tracker_index :
    (h : Handle) (p q : ℕ)
    → (update_pid_tracker h p).pid_to_active_idx q ≡ (
        if q == p
        then elim (h.pid_to_active_idx p) [
          | some i ↦ some i
          | none ↦
              if ltb (length h.pid_active_list) max_active_pids
              then some (length h.pid_active_list)
              else none
        ]
        else h.pid_to_active_idx q)
unfolding update_pid_tracker see_new_pid precompile_pid_labels add_active
update_pid_tracker_index h p q = ground arith
