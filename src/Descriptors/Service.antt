-- ===== src/Descriptors/Service.antt =====
-- src/tsa_descriptors.c, `handle_service`: the names that a service descriptor carries.
use tsanalyzer.Base.{
  ℕ, ◌+◌, ◌≤◌, ◌≡◌, ◌≢◌, refl, ap, ◌∙◌, List, [], ◌∷◌, ◌++◌, none, some, ltb, if◌then◌else◌,
  ltb-false, length, HasBytes, HasBytes-head, HasBytes-tail, cells, cells-HasBytes, subst, fun_ext,
  arith,
}
use tsanalyzer.StreamModel.{ProgramModel, TsModel, change_at}
use tsanalyzer.Descriptors.{
  find_program, trim_spaces, c_string, copy_name, name_service, handle_service,
}

-- No byte of a name is a zero.
abbrev pub NoZero : List ℕ → Type 0
NoZero [] = Unit {0}
NoZero (c ∷ cs) = (c ≢ 0) × NoZero cs

-- What a service descriptor holds after its tag and length.
abbrev pub service_bytes : ℕ → List ℕ → List ℕ → List ℕ
service_bytes type provider service =
    type ∷ length provider ∷ (provider ++ (length service ∷ service))

c_string-NoZero : (cs : List ℕ) → NoZero cs → c_string cs ≡ cs
unfolding c_string
c_string-NoZero [] h = refl
c_string-NoZero (c ∷ cs) h = ground (arith, h.0, c_string-NoZero cs h.1)

copy_name-HasBytes :
    (body : ℕ → ℕ) (at : ℕ) (name : List ℕ)
    → length name ≤ 255
    → NoZero name
    → HasBytes body at name
    → copy_name body at (length name) ≡ trim_spaces name
unfolding copy_name
copy_name-HasBytes body at name h z b =
    ap (λ n. trim_spaces (c_string (cells body at n))) (at_most (length name) h)
    ∙ ap (λ l. trim_spaces (c_string l)) (cells-HasBytes body at name b)
    ∙ ap trim_spaces (c_string-NoZero name z)
  where
    at_most : (n : ℕ) → n ≤ 255 → (if ltb n 255 then n else 255) ≡ n
    at_most n h = ground arith

-- The pieces of the descriptor, where handle_service looks for them.
service_bytes_read :
    (body : ℕ → ℕ) (type : ℕ) (provider service : List ℕ)
    → HasBytes body 0 (service_bytes type provider service)
    → (body 1 ≡ length provider)
      × HasBytes body 2 provider
      × (body (2 + length provider) ≡ length service)
      × HasBytes body (3 + length provider) service
service_bytes_read body type provider service h =
    let rest = HasBytes-tail body 2 provider (length service ∷ service) h.1.1 in
    (
      h.1.0,
      HasBytes-head body 2 provider (length service ∷ service) h.1.1,
      rest.0,
      subst (λ a. HasBytes body a service) (omega arith) rest.1,
    )

name_service_reads :
    (body : ℕ → ℕ) (type : ℕ) (provider service : List ℕ) (g : ProgramModel)
    → NoZero provider
    → NoZero service
    → HasBytes body 0 (service_bytes type provider service)
    → length provider + length service + 3 ≤ 255
    → name_service body (length provider + length service + 3) g
      ≡ record g { provider_name = trim_spaces provider; service_name = trim_spaces service }
unfolding name_service
name_service_reads body type provider service g zp zs h small =
    let (plen, pheld, slen, sheld) = service_bytes_read body type provider service h in
    rw
      (
        plen,
        slen,
        ltb-false (length provider + length service + 3) (length provider + 2) (omega arith),
        ltb-false (length provider + length service + 3) (length provider + length service + 3)
            (omega arith),
        copy_name-HasBytes body 2 provider (omega arith) zp pheld,
        copy_name-HasBytes body (3 + length provider) service (omega arith) zs sheld,
      )
      refl

-- A service descriptor gives the program that its PID or service id names the provider and the
-- service name it carries, less the spaces at their ends, and changes nothing else. The names hold
-- no zero byte and fit in a descriptor together.
pub handle_service_names :
    (m : TsModel) (pid idx : ℕ) (body : ℕ → ℕ) (type : ℕ) (provider service : List ℕ)
    → find_program m pid ≡ some idx
    → NoZero provider
    → NoZero service
    → HasBytes body 0 (service_bytes type provider service)
    → length provider + length service + 3 ≤ 255
    → handle_service pid body (length provider + length service + 3) m ≡ record m {
      programs =
          change_at idx
            (λ g. record g {
              provider_name = trim_spaces provider;
              service_name = trim_spaces service;
            })
            m.programs;
    }
unfolding handle_service
handle_service_names m pid idx body type provider service found zp zs h small =
    let len = length provider + length service + 3 in
    ap
      (λ o. elim o [
        | none ↦ m
        | some idx ↦
            if ltb len 3
            then m
            else record m { programs = change_at idx (name_service body len) m.programs }
      ])
      found
    ∙ rw (ltb-false len 3 (omega arith)) (
        ap (λ f. record m { programs = change_at idx f m.programs })
          (fun_ext (λ g. name_service_reads body type provider service g zp zs h small)))
