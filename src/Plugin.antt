-- ===== src/Plugin.antt =====
-- src/tsa_plugin.c and include/tsa_plugin.h: the registry of plugins, and the plugins that are
-- attached to a handle. Pointers to operations are valid, and differ as their addresses do.
pub mod Registry
pub mod Slots
use tsanalyzer.Base.{ℕ, zero, suc, ◌+◌, ◌-◌, List, [], ◌∷◌, ◌++◌, Option, none, some}
use tsanalyzer.Base.{
  Bool, true, false, not, ◌&&◌, ◌||◌, ltb, leb, ◌==◌, if◌then◌else◌, length, map, set,
}

-- MAX_TSA_PLUGINS
abbrev pub max_plugins : ℕ
max_plugins = 16

-- tsa_plugin_ops_t: what the registry uses of it. `create` is the callback on the bytes of the
-- context, from which it makes an instance or none; the handle that it is also given is left out, so
-- that a plugin that changed the slots or their number from there is not modelled. Of `destroy`,
-- whether it is set.
pub record Ops : Type 0 where
  pub address : ℕ
  pub name : Option (List ℕ)
  pub create : (ℕ → ℕ) → Option ℕ × (ℕ → ℕ)
  pub destroy : Bool

-- An entry of `plugins` in struct tsa_handle
pub record Slot : Type 0 where
  pub ops : Option Ops
  pub instance_of : Option ℕ
  pub in_use : Bool
  pub context : ℕ → ℕ

-- The part of a handle for the plugins, and the instances that `destroy` was called on, in order.
pub record Host : Type 0 where
  pub plugins : List Slot
  pub plugin_count : ℕ
  pub destroyed : List (Option ℕ)

unfoldable pub is_registered : List Ops → Ops → Bool
is_registered [] ops = false
is_registered (o ∷ os) ops = (o.address == ops.address) || is_registered os ops

-- The registry is the list of its first `s_registry_count` entries.
unfoldable pub register : List Ops → Ops → List Ops
register registry ops =
    if leb max_plugins (length registry)
    then registry
    else if is_registered registry ops
    then registry
    else registry ++ (ops ∷ [])

-- `strcmp` is 0.
unfoldable pub same_text : List ℕ → List ℕ → Bool
same_text [] [] = true
same_text [] (_ ∷ _) = false
same_text (_ ∷ _) [] = false
same_text (c ∷ cs) (d ∷ ds) = (c == d) && same_text cs ds

unfoldable pub is_named : List ℕ → Ops → Bool
is_named name o = elim o.name [ none ↦ false | some n ↦ same_text n name ]

unfoldable pub find : List Ops → List ℕ → Option Ops
find [] name = none
find (o ∷ os) name = if is_named name o then some o else find os name

-- The four engines are those of the other files.
unfoldable pub init_registry : (scte35 tr101290 pcr essence : Ops) → List Ops
init_registry scte35 tr101290 pcr essence =
    register (register (register (register [] scte35) tr101290) pcr) essence

-- The first slot that is not in use.
unfoldable pub free_slot : List Slot → Option (ℕ × Slot)
free_slot [] = none
free_slot (s ∷ ss) =
    let rest = free_slot ss in
    if s.in_use then elim rest [ none ↦ none | some (i, t) ↦ some (suc i, t) ] else some (0, s)

abbrev pub zeroed : ℕ → ℕ
zeroed _ = 0

-- The plugin is created in the zeroed context of the slot.
unfoldable pub instantiate : Host → Ops → ℕ → Slot → Host
instantiate h ops i s =
    let (made, context) = ops.create zeroed in
    elim made [
      | none ↦ record h { plugins = set h.plugins i (record s { context = context }) }
      | some x ↦ record h {
        plugins =
            set h.plugins i
              (record { ops = some ops; instance_of = some x; in_use = true; context = context });
        plugin_count = h.plugin_count + 1;
      }
    ]

unfoldable pub attach_instance : Host → Ops → Host
attach_instance h ops =
    if leb max_plugins h.plugin_count
    then h
    else elim (free_slot h.plugins) [ none ↦ h | some (i, s) ↦ instantiate h ops i s ]

unfoldable pub attach_builtin : List Ops → Host → Host
attach_builtin [] h = h
attach_builtin (ops ∷ rest) h = attach_builtin rest (attach_instance h ops)

unfoldable pub clear_slot : Slot → Slot
clear_slot s = if s.in_use then record s { in_use = false; instance_of = none; ops = none } else s

-- `destroy` is called when the slot is in use and its operations have it.
unfoldable pub calls_destroy : Slot → Bool
calls_destroy s = s.in_use && elim s.ops [ none ↦ false | some o ↦ o.destroy ]

unfoldable pub destroy_calls : List Slot → List (Option ℕ)
destroy_calls [] = []
destroy_calls (s ∷ ss) =
    let rest = destroy_calls ss in if calls_destroy s then s.instance_of ∷ rest else rest

unfoldable pub destroy_all : Host → Host
destroy_all h = record {
  plugins = map clear_slot h.plugins;
  plugin_count = 0;
  destroyed = h.destroyed ++ destroy_calls h.plugins;
}
