-- ===== src/Descriptors.antt =====
-- src/tsa_descriptors.c: the table of descriptor handlers, and the handlers. A descriptor is the
-- memory from its tag on. `ts_model` is all that the handlers touch of the analyzer; a C string is
-- the list of its bytes before the zero.
pub mod Service
use tsanalyzer.Base.{
  ℕ, zero, suc, ◌+◌, ◌-◌, ◌*◌, ◌/◌, ◌%◌, List, [], ◌∷◌, Bool, true, false, ◌||◌, Option, none, some,
  ltb, leb, ◌==◌, if◌then◌else◌, length, get_elem?, update, find_index, cells,
}
use tsanalyzer.Base.Loops.{for_range}
use tsanalyzer.StreamModel.{ProgramModel, TsModel, change_at}

-- The functions of type tsa_descriptor_handler_t.
pub data Handler : Type 0 where
  service lcn ac3 subtitle teletext : Handler

-- What a handler can change: the model, and the stream type behind a pointer that may be null.
pub record Context : Type 0 where
  pub model : TsModel
  pub stream_type : Option ℕ

-- tsa_descriptors_register_handler
unfoldable pub register_handler : ℕ → Handler → (ℕ → Option Handler) → ℕ → Option Handler
register_handler tag handler handlers = update handlers tag (some handler)

-- tsa_descriptors_init
unfoldable pub handlers : ℕ → Option Handler
handlers = register_handler 0x56 teletext (
    register_handler 0x59 subtitle (
      register_handler 0x81 ac3 (
        register_handler 0x7a ac3 (
          register_handler 0x6a ac3
            (register_handler 0x83 lcn (register_handler 0x48 service (λ tag. none)))))))

-- The index that the PID has, if a program stands there.
unfoldable pub mapped_program : TsModel → ℕ → Option ℕ
mapped_program m pid =
    if ltb pid 8192
    then elim (m.pid_to_program_idx pid) [
      | none ↦ none
      | some idx ↦ if ltb idx (length m.programs) then some idx else none
    ]
    else none

-- find_program, as the index of the program it returns: by PID, else by program number.
unfoldable pub find_program : TsModel → ℕ → Option ℕ
find_program m pid = elim (mapped_program m pid) [
  | some idx ↦ some idx
  | none ↦ find_index (λ g. g.program_number == pid) m.programs
]

unfoldable pub is_space : ℕ → Bool
is_space c = (c == 32) || (c == 9) || (c == 13) || (c == 10)

-- A byte in front of a string that is trimmed already: it is dropped if it is the last one left and
-- a space.
unfoldable pub trim_cons : ℕ → List ℕ → List ℕ
trim_cons c [] = if is_space c then [] else c ∷ []
trim_cons c (d ∷ ds) = c ∷ d ∷ ds

-- trim_spaces
unfoldable pub trim_spaces : List ℕ → List ℕ
trim_spaces [] = []
trim_spaces (c ∷ cs) = trim_cons c (trim_spaces cs)

-- The string that an array of bytes holds: it ends before the first zero.
unfoldable pub c_string : List ℕ → List ℕ
c_string [] = []
c_string (c ∷ cs) = if c == 0 then [] else c ∷ c_string cs

-- `memcpy` of a name of `len` bytes, at most 255, and the trimming after it
unfoldable pub copy_name : (ℕ → ℕ) → ℕ → ℕ → List ℕ
copy_name body from len =
    trim_spaces (c_string (cells body from (if ltb len 255 then len else 255)))

-- What handle_service writes to the program.
unfoldable pub name_service : (ℕ → ℕ) → ℕ → ProgramModel → ProgramModel
name_service body len g =
    let provider_len = body 1 in
    if ltb len (provider_len + 2)
    then g
    else let g₁ = record g { provider_name = copy_name body 2 provider_len } in
      let service_len = body (2 + provider_len) in
      if ltb len (provider_len + service_len + 3)
      then g₁
      else record g₁ { service_name = copy_name body (3 + provider_len) service_len }

unfoldable pub handle_service : ℕ → (ℕ → ℕ) → ℕ → TsModel → TsModel
handle_service pid body len m = elim (find_program m pid) [
  | none ↦ m
  | some idx ↦
      if ltb len 3
      then m
      else record m { programs = change_at idx (name_service body len) m.programs }
]

-- One service of handle_lcn.
unfoldable pub set_lcn : ℕ → ℕ → TsModel → TsModel
set_lcn service_id channel m = elim (find_program m service_id) [
  | none ↦ m
  | some idx ↦ record m { programs = change_at idx (λ g. record g { lcn = channel }) m.programs }
]

-- The loop runs while `i + 4 <= len`, that is `len / 4` times.
unfoldable pub handle_lcn : (ℕ → ℕ) → ℕ → TsModel → TsModel
handle_lcn body len m =
    for_range (len / 4) 0
      (λ k.
        set_lcn (body (k * 4) * 256 + body (k * 4 + 1))
          (body (k * 4 + 2) % 4 * 256 + body (k * 4 + 3)))
      m

-- Private data becomes what the descriptor says; handle_ac3, handle_subtitle and handle_teletext.
unfoldable pub retype : ℕ → Context → Context
retype type c = elim c.stream_type [
  | none ↦ c
  | some old ↦ if old == 0x06 then record c { stream_type = some type } else c
]

-- TSA_TYPE_AUDIO_AC3
abbrev pub audio_ac3 : ℕ
audio_ac3 = 0x81

unfoldable pub run_handler : Handler → ℕ → (ℕ → ℕ) → ℕ → Context → Context
run_handler service pid body len c = record c { model = handle_service pid body len c.model }
run_handler lcn pid body len c = record c { model = handle_lcn body len c.model }
run_handler ac3 pid body len c = retype audio_ac3 c
run_handler subtitle pid body len c = retype 0x59 c
run_handler teletext pid body len c = retype 0x56 c

-- tsa_descriptors_process
unfoldable pub process : (ℕ → Option Handler) → ℕ → (ℕ → ℕ) → ℕ → Context → Context
process handlers pid body max_len c =
    if ltb max_len (2 + body 1) then c else elim (handlers (body 0)) [
      | none ↦ c
      | some handler ↦ run_handler handler pid (λ i. body (2 + i)) (body 1) c
    ]
