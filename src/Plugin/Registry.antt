-- ===== src/Plugin/Registry.antt =====
-- src/tsa_plugin.c: the registry has each plugin once, and room for all it has.
use tsanalyzer.Base.{
  ℕ, ◌+◌, ◌≤◌, ◌≡◌, refl, sym, subst, inl, inr, arith, List, [], ◌∷◌, ◌++◌, false, length,
  length-append, leb, ◌==◌, if◌then◌else◌, Bool-cases, if_then, if_else, leb-lt,
}
use tsanalyzer.Base.Totals.{total}
use tsanalyzer.Plugin.{Ops, max_plugins, is_registered, register, init_registry}

unfoldable pub is_at : ℕ → Ops → ℕ
is_at a o = if o.address == a then 1 else 0

-- At most 16 plugins, with no address twice.
pub record IsRegistry (registry : List Ops) : Type 0 where
  pub bounded : length registry ≤ max_plugins
  pub once : (a : ℕ) → total (is_at a) registry ≤ 1

total-append :
    {A : Type 0} (weight : A → ℕ) (xs : List A) (x : A)
    → total weight (xs ++ (x ∷ [])) ≡ total weight xs + weight x
unfolding total
total-append weight [] x = omega arith
total-append weight (y ∷ xs) x = omega (arith, total-append weight xs x)

none_at :
    (os : List Ops) (ops : Ops) → is_registered os ops ≡ false → total (is_at ops.address) os ≡ 0
unfolding is_registered total is_at
none_at [] ops e = refl
none_at (o ∷ os) ops e =
    let (differs, rest) : ((o.address == ops.address) ≡ false) × (is_registered os ops ≡ false) =
      ground arith in
    rw differs (omega (arith, none_at os ops rest))

once_more :
    (a : ℕ) (os : List Ops) (ops : Ops)
    → is_registered os ops ≡ false
    → total (is_at a) os ≤ 1
    → total (is_at a) os + is_at a ops ≤ 1
unfolding is_at
once_more a os ops e h = elim (Bool-cases (ops.address == a)) [
  | inl same ↦
      let here : ops.address ≡ a = ground arith in
      let absent : total (is_at a) os ≡ 0 =
        subst (λ b. total (is_at b) os ≡ 0) here (none_at os ops e) in
      rw same (omega (arith, absent))
  | inr differs ↦ rw differs (omega arith)
]

-- Registering a plugin, once more or in a full registry too, keeps the registry in its bounds and
-- with no plugin twice.
pub register-IsRegistry :
    (registry : List Ops) (ops : Ops) → IsRegistry registry → IsRegistry (register registry ops)
unfolding register
register-IsRegistry registry ops v =
    let grown : List Ops = registry ++ (ops ∷ []) in
    elim (Bool-cases (leb max_plugins (length registry))) [
      | inl e ↦ if_then IsRegistry (leb max_plugins (length registry)) registry _ e v
      | inr e ↦
          if_else IsRegistry (leb max_plugins (length registry)) registry
            (if is_registered registry ops then registry else grown) e
            (elim (Bool-cases (is_registered registry ops)) [
              | inl f ↦ if_then IsRegistry (is_registered registry ops) registry grown f v
              | inr f ↦ if_else IsRegistry (is_registered registry ops) registry grown f (record {
                bounded = omega (
                  arith,
                  length-append registry (ops ∷ []),
                  leb-lt max_plugins (length registry) e,
                );
                once = λ a.
                    subst (λ (n : ℕ). n ≤ 1) (sym (total-append (is_at a) registry ops))
                      (once_more a registry ops f (v.once a));
              })
            ])
    ]

empty-IsRegistry : IsRegistry []
unfolding total
empty-IsRegistry = record { bounded = omega arith; once = λ a. omega arith }

-- The registry that `tsa_plugins_init_registry` makes is one.
init_registry-IsRegistry :
    (scte35 tr101290 pcr essence : Ops) → IsRegistry (init_registry scte35 tr101290 pcr essence)
unfolding init_registry
init_registry-IsRegistry scte35 tr101290 pcr essence = register-IsRegistry _ essence (
    register-IsRegistry _ pcr
      (register-IsRegistry _ tr101290 (register-IsRegistry [] scte35 empty-IsRegistry)))
