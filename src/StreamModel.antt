-- ===== src/StreamModel.antt =====
-- src/tsa_stream_model.c and include/tsa_stream_model.h: the tree of programs and elementary
-- streams. The fields that no modelled function reads or writes are left out. An index of -1 in
-- `pid_to_program_idx` is `none`; the counts are the lengths of the lists.
pub mod Consistent
use tsanalyzer.Base.{
  ℕ, zero, suc, ◌+◌, ◌<◌, List, [], ◌∷◌, ◌++◌, Bool, true, false, Option, none, some, ltb, leb,
  ◌==◌, if◌then◌else◌, length, get_elem?, set, update, find_index,
}

abbrev pub max_es_per_program : ℕ
max_es_per_program = 32

abbrev pub max_programs_per_ts : ℕ
max_programs_per_ts = 64

-- tsa_es_model_t
pub record EsModel : Type 0 where
  pub pid : ℕ
  pub stream_type : ℕ

-- tsa_program_model_t
pub record ProgramModel : Type 0 where
  pub program_number : ℕ
  pub pmt_pid : ℕ
  pub lcn : ℕ
  pub service_name : List ℕ
  pub provider_name : List ℕ
  pub es : List EsModel
  pub active : Bool

-- tsa_ts_model_t
pub record TsModel : Type 0 where
  pub programs : List ProgramModel
  pub pid_to_program_idx : ℕ → Option ℕ

-- tsa_stream_model_init
unfoldable pub init : TsModel
init = record { programs = []; pid_to_program_idx = λ p. none }

-- What the zeroed array holds for a program that is new.
unfoldable pub new_program : ℕ → ℕ → ProgramModel
new_program prog_num pmt_pid = record {
  program_number = prog_num;
  pmt_pid = pmt_pid;
  lcn = 0;
  service_name = [];
  provider_name = [];
  es = [];
  active = true;
}

-- `programs[idx]` is changed by `f`; an index out of range changes nothing.
unfoldable pub change_at {ℓ} : {A : Type ℓ} → ℕ → (A → A) → List A → List A
change_at i f [] = []
change_at zero f (x ∷ xs) = f x ∷ xs
change_at (suc i) f (x ∷ xs) = x ∷ change_at i f xs

-- `if (pmt_pid < 8192) pid_to_program_idx[pmt_pid] = idx`
unfoldable pub map_pid : ℕ → ℕ → TsModel → TsModel
map_pid pmt_pid idx m =
    if ltb pmt_pid 8192
    then record m { pid_to_program_idx = update m.pid_to_program_idx pmt_pid (some idx) }
    else m

-- tsa_stream_model_update_program
unfoldable pub update_program : ℕ → ℕ → TsModel → TsModel
update_program prog_num pmt_pid m =
    elim (find_index (λ g. g.program_number == prog_num) m.programs) [
      | some idx ↦ map_pid pmt_pid idx (record m {
        programs = change_at idx (λ g. record g { pmt_pid = pmt_pid; active = true }) m.programs;
      })
      | none ↦
          if leb max_programs_per_ts (length m.programs)
          then m
          else map_pid pmt_pid (length m.programs)
              (record m { programs = m.programs ++ (new_program prog_num pmt_pid ∷ []) })
    ]

-- The streams of a program once one of them has a type.
unfoldable pub update_streams : ℕ → ℕ → List EsModel → List EsModel
update_streams es_pid type es = elim (find_index (λ s. s.pid == es_pid) es) [
  | some idx ↦ change_at idx (λ s. record s { stream_type = type }) es
  | none ↦
      if leb max_es_per_program (length es)
      then es
      else es ++ (record { pid = es_pid; stream_type = type } ∷ [])
]

-- tsa_stream_model_update_es
unfoldable pub update_es : ℕ → ℕ → ℕ → TsModel → TsModel
update_es pmt_pid es_pid type m =
    if leb 8192 pmt_pid then m else elim (m.pid_to_program_idx pmt_pid) [
      | none ↦ m
      | some prog_idx ↦ record m {
        programs =
            change_at prog_idx (λ g. record g { es = update_streams es_pid type g.es }) m.programs;
      }
    ]
