-- ===== src/Psi/Moved.antt =====
-- src/tsa_psi.c: a program whose PMT moves to a new PID.
use tsanalyzer.Base.{
  ℕ, ◌≡◌, ◌≢◌, refl, true, false, ◌||◌, ◌==◌, if_else, arith, Option-cases, inl, inr,
}
use tsanalyzer.Handle.{Handle, DecodeResult}
use tsanalyzer.Psi.{
  has_program, pat_entry, update_pid_tracker, see_new_pid, add_active, precompile_pid_labels,
  section_filter_push, psi_process_packet,
}
use tsanalyzer.Psi.Tracker.{update_pid_tracker_new, update_pid_tracker_old}

see_new_pid_is_pmt : (h : Handle) (p : ℕ) → (see_new_pid h p).pid_is_pmt ≡ h.pid_is_pmt
unfolding see_new_pid precompile_pid_labels add_active
see_new_pid_is_pmt h p = ground arith

update_pid_tracker_is_pmt :
    (h : Handle) (p : ℕ) → (update_pid_tracker h p).pid_is_pmt ≡ h.pid_is_pmt
update_pid_tracker_is_pmt h p = elim (Option-cases (h.pid_to_active_idx p)) [
  | inl e ↦ rw (update_pid_tracker_new h p e) (see_new_pid_is_pmt h p)
  | inr (i, e) ↦ rw (update_pid_tracker_old h p i e) refl
]

pat_entry_is_pmt :
    (h : Handle) (pn ppid : ℕ)
    → has_program pn h.programs ≡ true
    → (pat_entry pn ppid h).pid_is_pmt ≡ h.pid_is_pmt
unfolding pat_entry
pat_entry_is_pmt h pn ppid known = ground arith

is_zero_false : (n : ℕ) → n ≢ 0 → (n == 0) ≡ false
is_zero_false n h = ground arith

-- When a PAT gives a program that is known a PID that no PMT has had before, the packets of that
-- PID are tracked, but no section of theirs is parsed.
pub moved_pmt_ignored :
    (h : Handle) (pn : ℕ) (pkt : ℕ → ℕ) (res : DecodeResult)
    → has_program pn h.programs ≡ true
    → res.pid ≢ 0
    → h.pid_is_pmt res.pid ≡ false
    → psi_process_packet pkt res (pat_entry pn res.pid h)
      ≡ update_pid_tracker (pat_entry pn res.pid h) res.pid
unfolding psi_process_packet
moved_pmt_ignored h pn pkt res known not_pat not_pmt =
    let moved = pat_entry pn res.pid h in
    if_else (λ (k : Handle). k ≡ update_pid_tracker moved res.pid)
      ((res.pid == 0) || (update_pid_tracker moved res.pid).pid_is_pmt res.pid)
      (section_filter_push res.pid pkt res (update_pid_tracker moved res.pid))
      (update_pid_tracker moved res.pid)
      (rw
        (
          is_zero_false res.pid not_pat,
          update_pid_tracker_is_pmt moved res.pid,
          pat_entry_is_pmt h pn res.pid known,
        )
        not_pmt)
      refl
