-- ===== src/Tests/Sharing.antt =====
-- Examples of what threads and modules share: the packet ring, the index queue, the pool, the
-- stream tree and the plugins.
use tsanalyzer.Base.{◌+◌, ◌≡◌, refl, [], ◌∷◌, Option, some, none, true, arith}
use tsanalyzer.Base.Window.{window}
use tsanalyzer.Base.Int.{pos}
use tsanalyzer.Base.Totals.{count, total}
use tsanalyzer.Base.{replicate, false}
use tsanalyzer.Plugin.{Ops, Slot, Host, attach_instance}
use tsanalyzer.Plugin.Slots.{IsValid, Attached, used, attach_instance-Attached}
use tsanalyzer.PacketRing.{Ring, push}
use tsanalyzer.PacketRing.Refine as RingProofs
use tsanalyzer.PacketRing.Refine.{Pushed, Popped, push-Pushed, pop-Popped}
use tsanalyzer.Mpmc
use tsanalyzer.Mpmc.{Queue, create, capacity_of, round_up, claim_head, fill, seems_full, slot_of}
use tsanalyzer.Mpmc.Sequence
use tsanalyzer.Mpmc.Sequence.Valid as QueueProofs
use tsanalyzer.Mpmc.Sequence.Valid.{fresh-IsValid}
use tsanalyzer.Mpmc.Threads.{
  idle, System, Reach, here, next, call_push, admit, take_head, store_item,
}
use tsanalyzer.Mpmc.Threads.Conserved.{start, create-conserves}
use tsanalyzer.Pool.{Pool, acquire}
use tsanalyzer.Pool
use tsanalyzer.Pool.Indices
use tsanalyzer.Pool.Indices.{indices}
use tsanalyzer.Pool.Exchange.{IsOwned}
use tsanalyzer.Pool.Creation.{create-IsOwned}
use tsanalyzer.Pool.Ownership.{Acquired, acquire-Acquired}
use tsanalyzer.StreamTree.{Store}
use tsanalyzer.StreamTree.Subscriptions.{IsTold, joins, leaves}
use tsanalyzer.StreamTree.Requests.{join_it, leave_it, serve_all, serve_all-IsTold}

-- A ring of two slots that holds one packet, after one turn.
abbrev ring : Ring
ring = record {
  buffer = (7 ∷ []) ∷ (8 ∷ []) ∷ [];
  timestamps = 70 ∷ 80 ∷ [];
  sz = 2;
  head = 4;
  tail = 3;
}

ring-IsValid : RingProofs.IsValid ring
ring-IsValid = record {
  packets_fit = refl;
  stamps_fit = refl;
  ordered = omega arith;
  fits = omega arith;
  head_word = omega arith;
}

push-Pushed_example : Pushed ring (9 ∷ []) 90 (push ring (9 ∷ []) 90)
push-Pushed_example = push-Pushed (9 ∷ []) 90 ring-IsValid (omega arith)

-- A queue for two indices, with one thread that pushes 5.
abbrev two_slots : Queue
two_slots = record { capacity = 2; head = 0; tail = 0; buffer = Mpmc.no_item ∷ Mpmc.no_item ∷ [] }

abbrev after_push : System
after_push = record {
  queue = record { capacity = 2; head = 1; tail = 0; buffer = 5 ∷ Mpmc.no_item ∷ [] };
  threads = idle ∷ [];
  accepted = 5 ∷ [];
  delivered = [];
}

created : create true true 2 ≡ some two_slots
unfolding create capacity_of round_up
created = refl

pushed : Reach (start two_slots (idle ∷ [])) after_push
unfolding start claim_head fill seems_full slot_of
pushed =
    next
      (next (next (next here (call_push _ 0 5 refl (omega arith))) (admit _ 0 5 0 refl refl))
        (take_head _ 0 5 refl))
      (store_item _ 0 5 0 refl refl)

create-conserves_example : count 5 (5 ∷ []) ≡ count 5 [] + count 5 (5 ∷ Mpmc.no_item ∷ [])
create-conserves_example =
    create-conserves 5 2 (idle ∷ []) created (refl, tt) (λ e. cc) pushed (refl, tt)

two_slots-IsValid : QueueProofs.IsValid 1 10 two_slots
two_slots-IsValid = fresh-IsValid 1 10 (omega arith) (omega arith)

-- A pool of two packets over this queue, which has room for eight packets to come back.
abbrev pool : Pool (Option Queue)
pool = Pool.create (indices 1) 2 (some two_slots)

pool-IsOwned : IsOwned (indices 1) 8 pool
unfolding window Indices.contents Indices.Ready
pool-IsOwned =
    create-IsOwned (indices 1) 8 2 (some two_slots) two_slots-IsValid refl (omega arith)
      (omega arith)

acquire-Acquired_example : Acquired (indices 1) 8 pool (acquire (indices 1) pool)
acquire-Acquired_example = acquire-Acquired (indices 1) 8 pool pool-IsOwned

-- The pool after one acquisition.
abbrev in_use : Pool (Option Queue)
in_use = record {
  packets = (record { ref_count = pos 1; metadata = none }) ∷ Pool.zeroed ∷ [];
  free_queue = some (record { capacity = 2; head = 2; tail = 1; buffer = Mpmc.no_item ∷ 1 ∷ [] });
}

-- The stream 1 is a child of the stream 0, and wants nothing.
abbrev tree : Store
tree = record {
  streams = λ i. record {
    parent = some 0;
    children = 1 ∷ [];
    join_pid = true;
    leave_pid = true;
    pid_list = λ pid. 0;
  };
  notices = [];
}

serve_all-IsTold_example :
    IsTold 1 0 256 (serve_all tree 1 (join_it 256 ∷ join_it 256 ∷ leave_it 256 ∷ []))
unfolding joins leaves
serve_all-IsTold_example =
    serve_all-IsTold 1 0 256 tree (join_it 256 ∷ join_it 256 ∷ leave_it 256 ∷ []) (λ e. omega arith)
      (λ q. omega arith)
      (record { linked = refl; hears_join = refl; hears_leave = refl; balance = refl })

-- Sixteen free slots, and a plugin whose instance is at its context.
abbrev vacant : Slot
vacant = record { ops = none; instance_of = none; in_use = false; context = λ _. 7 }

abbrev no_plugins : Host
no_plugins = record { plugins = replicate 16 vacant; plugin_count = 0; destroyed = [] }

abbrev plugin : Ops
plugin = record { address = 4096; name = none; create = λ c. (some 512, c); destroy = true }

no_plugins-IsValid : IsValid no_plugins
unfolding total used
no_plugins-IsValid = record { slots = refl; counted = refl }

attach_instance-Attached_example : Attached no_plugins plugin (attach_instance no_plugins plugin)
attach_instance-Attached_example = attach_instance-Attached no_plugins plugin no_plugins-IsValid
