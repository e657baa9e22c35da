-- ===== src/StreamModel/Consistent.antt =====
-- src/tsa_stream_model.c: the tree fits in its arrays and its index points into it.
use tsanalyzer.Base.{
  ℕ, zero, suc, ◌<◌, ◌≤◌, ◌≡◌, refl, ap, List, [], ◌∷◌, ◌++◌, true, some, ltb, leb, ◌==◌,
  if◌then◌else◌, length, length-append, find_index, find_index_lt, if_each, option_each, Bool-cases,
  inl, inr, arith,
}
use tsanalyzer.StreamModel.{
  EsModel, ProgramModel, TsModel, max_es_per_program, max_programs_per_ts, init, new_program,
  change_at, map_pid, update_program, update_streams, update_es,
}

-- Every program's streams fit in its array.
abbrev pub StreamsFit : List ProgramModel → Type 0
StreamsFit [] = Unit {0}
StreamsFit (g ∷ gs) = (length g.es ≤ max_es_per_program) × StreamsFit gs

pub record IsConsistent (m : TsModel) : Type 0 where
  pub programs_fit : length m.programs ≤ max_programs_per_ts
  pub streams_fit : StreamsFit m.programs
  pub index_in : (p i : ℕ) → m.pid_to_program_idx p ≡ some i → i < length m.programs

length-change_at {ℓ} :
    {A : Type ℓ} (i : ℕ) (f : A → A) (xs : List A) → length (change_at i f xs) ≡ length xs
unfolding change_at
length-change_at i f [] = refl
length-change_at zero f (x ∷ xs) = refl
length-change_at (suc i) f (x ∷ xs) = ap suc (length-change_at i f xs)

-- The tree of a model that has just been initialized is empty.
pub init-IsConsistent : IsConsistent init
unfolding init
init-IsConsistent = record { programs_fit = omega arith; streams_fit = tt; index_in = λ p i e. cc }

map_pid-IsConsistent :
    (pmt_pid idx : ℕ) (m : TsModel)
    → idx < length m.programs
    → IsConsistent m
    → IsConsistent (map_pid pmt_pid idx m)
unfolding map_pid
map_pid-IsConsistent pmt_pid idx m h v =
    if_each IsConsistent (ltb pmt_pid 8192) _ _
      (record {
        programs_fit = v.programs_fit;
        streams_fit = v.streams_fit;
        index_in = λ p i e. ground (arith, v.index_in p i);
      })
      v

StreamsFit-push :
    (gs : List ProgramModel) (g : ProgramModel)
    → length g.es ≤ max_es_per_program
    → StreamsFit gs
    → StreamsFit (gs ++ (g ∷ []))
StreamsFit-push [] g hg h = (hg, tt)
StreamsFit-push (f ∷ gs) g hg h = (h.0, StreamsFit-push gs g hg h.1)

StreamsFit-change_at :
    (i : ℕ) (f : ProgramModel → ProgramModel) (gs : List ProgramModel)
    → ((g : ProgramModel) → length g.es ≤ max_es_per_program → length (f g).es ≤ max_es_per_program)
    → StreamsFit gs
    → StreamsFit (change_at i f gs)
unfolding change_at
StreamsFit-change_at i f [] keep h = h
StreamsFit-change_at zero f (g ∷ gs) keep h = (keep g h.0, h.1)
StreamsFit-change_at (suc i) f (g ∷ gs) keep h = (h.0, StreamsFit-change_at i f gs keep h.1)

update_streams_fit :
    (es_pid type : ℕ) (es : List EsModel)
    → length es ≤ max_es_per_program
    → length (update_streams es_pid type es) ≤ max_es_per_program
unfolding update_streams
update_streams_fit es_pid type es h =
    option_each (λ l. length l ≤ max_es_per_program) (find_index (λ s. s.pid == es_pid) es) _
      (λ i. change_at i (λ s. record s { stream_type = type }) es) (push_fits es _ h)
      (λ i e. omega (arith, length-change_at i (λ s. record s { stream_type = type }) es))
  where
    push_fits :
        (es : List EsModel) (s : EsModel)
        → length es ≤ max_es_per_program
        → length (if leb max_es_per_program (length es) then es else es ++ (s ∷ []))
          ≤ max_es_per_program
    push_fits es s h = ground (arith, length-append es (s ∷ []))

change_program :
    (i : ℕ) (f : ProgramModel → ProgramModel) (m : TsModel)
    → ((g : ProgramModel) → length g.es ≤ max_es_per_program → length (f g).es ≤ max_es_per_program)
    → IsConsistent m
    → IsConsistent (record m { programs = change_at i f m.programs })
change_program i f m keep v = record {
  programs_fit = omega (arith, length-change_at i f m.programs, v.programs_fit);
  streams_fit = StreamsFit-change_at i f m.programs keep v.streams_fit;
  index_in = λ p j e. omega (arith, length-change_at i f m.programs, v.index_in p j e);
}

push_program :
    (prog_num pmt_pid : ℕ) (m : TsModel)
    → length m.programs < max_programs_per_ts
    → IsConsistent m
    → IsConsistent (record m { programs = m.programs ++ (new_program prog_num pmt_pid ∷ []) })
unfolding new_program
push_program prog_num pmt_pid m room v =
    let pushed = length-append m.programs (new_program prog_num pmt_pid ∷ []) in
    record {
      programs_fit = omega (arith, pushed);
      streams_fit =
          StreamsFit-push m.programs (new_program prog_num pmt_pid) (omega arith) v.streams_fit;
      index_in = λ p j e. omega (arith, pushed, v.index_in p j e);
    }

-- A model that stays within its arrays, 64 programs of 32 streams each, and whose index by PID
-- points at programs that exist, is still such a model after a program is added or updated.
pub update_program-IsConsistent :
    (prog_num pmt_pid : ℕ) (m : TsModel)
    → IsConsistent m
    → IsConsistent (update_program prog_num pmt_pid m)
unfolding update_program
update_program-IsConsistent prog_num pmt_pid m v =
    option_each IsConsistent (find_index (λ g. g.program_number == prog_num) m.programs) _ _
      (elim (Bool-cases (leb max_programs_per_ts (length m.programs))) [
        | inl b ↦ rw b v
        | inr b ↦ rw b (
            map_pid-IsConsistent pmt_pid _ _
              (omega (arith, length-append m.programs (new_program prog_num pmt_pid ∷ [])))
              (push_program prog_num pmt_pid m (ground arith) v))
      ])
      (λ i e.
        map_pid-IsConsistent pmt_pid i _
          (omega (
            arith,
            length-change_at i (λ g. record g { pmt_pid = pmt_pid; active = true }) m.programs,
            find_index_lt _ m.programs i e,
          ))
          (change_program i (λ g. record g { pmt_pid = pmt_pid; active = true }) m (λ g h. h) v))

-- A model that stays within its arrays and whose index points at programs that exist is still such
-- a model after a stream of a program is added or updated.
pub update_es-IsConsistent :
    (pmt_pid es_pid type : ℕ) (m : TsModel)
    → IsConsistent m
    → IsConsistent (update_es pmt_pid es_pid type m)
unfolding update_es
update_es-IsConsistent pmt_pid es_pid type m v = if_each IsConsistent (leb 8192 pmt_pid) _ _ v (
    option_each IsConsistent (m.pid_to_program_idx pmt_pid) _ _ v (λ i e.
      change_program i (λ g. record g { es = update_streams es_pid type g.es }) m
        (λ g. update_streams_fit es_pid type g.es) v))
