-- ===== src/Plugin/Slots.antt =====
-- src/tsa_plugin.c: the slots of a handle and their number.
use tsanalyzer.Base.{ℕ, suc, ◌+◌, ◌≤◌, ◌≡◌, inl, inr, refl, ap, ◌∙◌, arith}
use tsanalyzer.Base.{
  List, [], ◌∷◌, Option, none, some, true, false, length, length-set, map, set, get_elem?, leb,
  if◌then◌else◌, Bool-cases, if_each, if_then, if_else, leb-lt, leb→le,
}
use tsanalyzer.Base.Totals.{total, total-set}
use tsanalyzer.Plugin.{
  Ops, Slot, Host, max_plugins, free_slot, zeroed, instantiate, attach_instance, attach_builtin,
  clear_slot, destroy_all,
}

unfoldable pub used : Slot → ℕ
used s = if s.in_use then 1 else 0

-- The handle has all its slots, and counts those in use.
pub record IsValid (h : Host) : Type 0 where
  pub slots : length h.plugins ≡ max_plugins
  pub counted : total used h.plugins ≡ h.plugin_count

-- A slot that is found is the one at its place, and is not in use.
pub data Found (ss : List Slot) : Option (ℕ × Slot) → Type 0 where
  none_free : total used ss ≡ length ss → Found ss none
  free : (i : ℕ) (s : Slot) → get_elem? ss i ≡ some s → s.in_use ≡ false → Found ss (some (i, s))

used-le : (ss : List Slot) → total used ss ≤ length ss
unfolding total used
used-le [] = omega arith
used-le (s ∷ ss) =
    if_each (λ (n : ℕ). n + total used ss ≤ suc (length ss)) s.in_use 1 0
      (omega (arith, used-le ss)) (omega (arith, used-le ss))

abbrev shift : Option (ℕ × Slot) → Option (ℕ × Slot)
shift o = elim o [ none ↦ none | some (i, t) ↦ some (suc i, t) ]

Found-shift :
    (s : Slot) (ss : List Slot) (o : Option (ℕ × Slot))
    → s.in_use ≡ true
    → Found ss o
    → Found (s ∷ ss) (shift o)
unfolding total used
Found-shift s ss none e (none_free h) = none_free (rw e (omega (arith, h)))
Found-shift s ss (some _) e (free i t at idle) = free (suc i) t at idle

free_slot-Found : (ss : List Slot) → Found ss (free_slot ss)
unfolding free_slot total
free_slot-Found [] = none_free refl
free_slot-Found (s ∷ ss) = elim (Bool-cases s.in_use) [
  | inl e ↦
      if_then (Found (s ∷ ss)) s.in_use (shift (free_slot ss)) (some (0, s)) e
        (Found-shift s ss (free_slot ss) e (free_slot-Found ss))
  | inr e ↦
      if_else (Found (s ∷ ss)) s.in_use (shift (free_slot ss)) (some (0, s)) e (free 0 s refl e)
]

-- What attaching a plugin may do: nothing when all slots are taken; nothing but to use the context
-- of a free slot when the plugin makes no instance; or to put the plugin and its instance into a
-- free slot and count it.
pub data Attached (h : Host) (ops : Ops) : Host → Type 0 where
  full : h.plugin_count ≡ max_plugins → Attached h ops h
  not_made :
      (i : ℕ) (s : Slot)
      → get_elem? h.plugins i ≡ some s
      → s.in_use ≡ false
      → (ops.create zeroed).0 ≡ none
      → Attached h ops
          (record h { plugins = set h.plugins i (record s { context = (ops.create zeroed).1 }) })
  made :
      (i x : ℕ) (s : Slot)
      → get_elem? h.plugins i ≡ some s
      → s.in_use ≡ false
      → (ops.create zeroed).0 ≡ some x
      → Attached h ops (record h {
        plugins = set h.plugins i (record {
          ops = some ops;
          instance_of = some x;
          in_use = true;
          context = (ops.create zeroed).1;
        });
        plugin_count = h.plugin_count + 1;
      })

instantiate-Attached :
    (h : Host) (ops : Ops) (i : ℕ) (s : Slot)
    → get_elem? h.plugins i ≡ some s
    → s.in_use ≡ false
    → Attached h ops (instantiate h ops i s)
unfolding instantiate
instantiate-Attached h ops i s at idle = go (ops.create zeroed).0 refl
  where
    go :
        (o : Option ℕ)
        → (ops.create zeroed).0 ≡ o
        → Attached h ops (elim o as (λ _. Host) [
          | none ↦ record h {
            plugins = set h.plugins i (record s { context = (ops.create zeroed).1 });
          }
          | some x ↦ record h {
            plugins = set h.plugins i (record {
              ops = some ops;
              instance_of = some x;
              in_use = true;
              context = (ops.create zeroed).1;
            });
            plugin_count = h.plugin_count + 1;
          }
        ])
    go none e = not_made i s at idle e
    go (some x) e = made i x s at idle e

-- On a handle that has 16 slots and counts those in use, attaching a plugin leaves the handle as it
-- is if the count is 16; or, if the plugin makes no instance, changes only the context of a slot
-- that was not in use; or puts the plugin, its instance and its context into a slot that was not in
-- use, and adds one to the count. The branch that reports a count below the maximum without a free
-- slot is never taken.
pub attach_instance-Attached :
    (h : Host) (ops : Ops) → IsValid h → Attached h ops (attach_instance h ops)
unfolding attach_instance
attach_instance-Attached h ops v =
    let at_most : h.plugin_count ≤ max_plugins =
      omega (arith, v.slots, v.counted, used-le h.plugins) in
    elim (Bool-cases (leb max_plugins h.plugin_count)) [
      | inl e ↦
          if_then (Attached h ops) (leb max_plugins h.plugin_count) h _ e
            (full (omega (arith, leb→le max_plugins h.plugin_count e)))
      | inr e ↦
          if_else (Attached h ops) (leb max_plugins h.plugin_count) h (go_of (free_slot h.plugins))
            e (go e (free_slot h.plugins) (free_slot-Found h.plugins))
    ]
  where
    go_of : Option (ℕ × Slot) → Host
    go_of o = elim o [ none ↦ h | some (i, s) ↦ instantiate h ops i s ]

    go :
        leb max_plugins h.plugin_count ≡ false
        → (o : Option (ℕ × Slot)) → Found h.plugins o
        → Attached h ops (elim o as (λ _. Host) [ none ↦ h | some (i, s) ↦ instantiate h ops i s ])
    go e none (none_free all) =
        absurd (omega (arith, v.slots, v.counted, all, leb-lt max_plugins h.plugin_count e))
    go e (some _) (free i s at idle) = instantiate-Attached h ops i s at idle

-- Setting a slot keeps the slots and their number.
set-IsValid :
    (h : Host) (i n : ℕ) (s t : Slot)
    → get_elem? h.plugins i ≡ some s
    → n + used s ≡ h.plugin_count + used t
    → IsValid h
    → IsValid (record h { plugins = set h.plugins i t; plugin_count = n })
set-IsValid h i n s t at sum v = record {
  slots = length-set h.plugins i t ∙ v.slots;
  counted = omega (arith, total-set used h.plugins i s t at, v.counted);
}

-- Attaching a plugin, made or not, keeps the count of the slots in use right.
pub attach_instance-IsValid : (h : Host) (ops : Ops) → IsValid h → IsValid (attach_instance h ops)
unfolding used
attach_instance-IsValid h ops v = go (attach_instance h ops) (attach_instance-Attached h ops v)
  where
    go : (h' : Host) → Attached h ops h' → IsValid h'
    go _ (full e) = v
    go _ (not_made i s at idle e) = set-IsValid h i h.plugin_count s _ at refl v
    go _ (made i x s at idle e) =
        set-IsValid h i (h.plugin_count + 1) s _ at (rw idle (omega arith)) v

attach_builtin-IsValid :
    (registry : List Ops) (h : Host) → IsValid h → IsValid (attach_builtin registry h)
unfolding attach_builtin
attach_builtin-IsValid [] h v = v
attach_builtin-IsValid (ops ∷ rest) h v =
    attach_builtin-IsValid rest (attach_instance h ops) (attach_instance-IsValid h ops v)

length-map_clear : (ss : List Slot) → length (map clear_slot ss) ≡ length ss
length-map_clear [] = refl
length-map_clear (s ∷ ss) = ap suc (length-map_clear ss)

used-clear_slot : (s : Slot) → used (clear_slot s) ≡ 0
unfolding used clear_slot
used-clear_slot s = elim (Bool-cases s.in_use) [
  | inl e ↦
      if_then (λ (t : Slot). used t ≡ 0) s.in_use
        (record s { in_use = false; instance_of = none; ops = none }) s e refl
  | inr e ↦
      if_else (λ (t : Slot). used t ≡ 0) s.in_use
        (record s { in_use = false; instance_of = none; ops = none }) s e (rw e refl)
]

total-map_clear : (ss : List Slot) → total used (map clear_slot ss) ≡ 0
unfolding total
total-map_clear [] = refl
total-map_clear (s ∷ ss) = omega (arith, used-clear_slot s, total-map_clear ss)

-- After `tsa_plugins_destroy_all` no slot is in use and the count is zero, so that the handle can
-- take plugins again.
destroy_all-IsValid : (h : Host) → IsValid h → IsValid (destroy_all h)
unfolding destroy_all
destroy_all-IsValid h v = record {
  slots = length-map_clear h.plugins ∙ v.slots;
  counted = total-map_clear h.plugins;
}
