-- ===== src/Scheduling/Pool.antt =====
-- csapex_core/src/scheduling/thread_pool.cpp: the thread groups of a pool, and which of them executes
-- the tasks of a generator.
use csapex.Base.{
  ℕ, suc, ◌+◌, ◌==◌, ltb, Bool, false, not, List, [], ◌∷◌, ◌++◌, Option, none, some, update,
  if◌then◌else◌, ◌&&◌,
}
use csapex.Base.Result.{Result, ok, ◌>>=◌, ◌>>◌, assert}
use csapex.Base.Int.{ℤ, pos, negsuc, minus_one}
use csapex.Scheduling.{SchedulingState}
use csapex.Scheduling.Queue.{is_empty}
use csapex.Scheduling.Runner.{detach, assign_to_scheduler}

abbrev pub private_thread : ℕ
private_thread = 0

abbrev pub default_group_id : ℕ
default_group_id = 1

abbrev pub minimum_thread_id : ℕ
minimum_thread_id = 2

pub record ThreadPool : Type 0 where
  pub world : SchedulingState
  pub groups : List ℕ
  pub default_group : ℕ
  pub assignment : ℕ → Option ℕ
  pub paused : Bool
  pub enable_threading : Bool
  pub grouping : Bool
  -- the short names of the generators
  pub short_name : ℕ → ℕ

abbrev pub id_of : ThreadPool → ℕ → ℕ
id_of p g = p.world.groups.id g

abbrev pub has_id : (ℕ → ℕ) → ℕ → Option ℕ → Bool
has_id id i none = false
has_id id i (some g) = id g == i

abbrev pub is_in_group : ℕ → ℕ → ThreadPool → Bool
is_in_group t i p = has_id (id_of p) i (p.assignment t)

-- `std::make_shared<ThreadGroup>`: the number of the group and the largest used id are given.
abbrev pub make_group : ℕ → ℕ → ℕ → ThreadPool → ThreadPool
make_group i name next_id p =
    let gs = p.world.groups in
    let n = gs.next_group in
    record p {
      world = record p.world {
        groups = record {
          id = update gs.id n i;
          name = update gs.name n name;
          queue = update gs.queue n [];
          generators = update gs.generators n [];
          pause = update gs.pause n p.paused;
          stepping = update gs.stepping n false;
          next_group = suc n;
          next_id = next_id;
        };
      };
      groups = p.groups ++ n ∷ [];
    }

-- `ThreadGroup::ThreadGroup` with an id: `next_id_ = std::max(next_id_, id + 1)`
abbrev pub with_id : ℕ → ℕ → ℕ
with_id i next_id = if ltb next_id (i + 1) then i + 1 else next_id

-- `removeGroup(ThreadGroup*)`
unfoldable pub remove_from : ℕ → SchedulingState → List ℕ → Result (List ℕ)
remove_from g w [] = ok []
remove_from g w (x ∷ xs) =
    let rest = remove_from g w xs >>= λ ys. ok (x ∷ ys) in
    let gone = assert (is_empty g w) >> ok xs in if x == g then gone else rest

unfoldable pub remove_group : ℕ → ThreadPool → Result ThreadPool
remove_group g p = remove_from g p.world p.groups >>= λ gs. ok (record p { groups = gs })

-- What is left to do for the group that the generator left.
unfoldable pub leave_group : Option ℕ → ThreadPool → Result ThreadPool
leave_group none p = ok p
leave_group (some old) p = if id_of p old == private_thread then remove_group old p else ok p

-- `assignGeneratorToGroup`
unfoldable pub assign_generator_to_group : ℕ → ℕ → ThreadPool → Result ThreadPool
assign_generator_to_group t g p =
    let moved = assign_to_scheduler t g (detach t p.world) >>= λ w.
    leave_group (p.assignment t)
      (record p { world = w; assignment = update p.assignment t (some g) }) in
    if is_in_group t (id_of p g) p then ok p else moved

-- `usePrivateThreadFor`
unfoldable pub use_private_thread_for : ℕ → ThreadPool → Result ThreadPool
use_private_thread_for t p =
    let p1 =
      make_group private_thread (p.short_name t) (with_id private_thread p.world.groups.next_id)
        p in
    if is_in_group t private_thread p
    then ok p
    else assign_generator_to_group t p.world.groups.next_group p1

unfoldable pub use_default_thread_for : ℕ → ThreadPool → Result ThreadPool
use_default_thread_for t p = assign_generator_to_group t p.default_group p

-- The first group that has what is looked for
unfoldable pub find_group : (ℕ → Bool) → List ℕ → Option ℕ
find_group test [] = none
find_group test (g ∷ gs) = let rest = find_group test gs in if test g then some g else rest

abbrev pub assign_if_found : ℕ → Option ℕ → ThreadPool → Result ThreadPool
assign_if_found t none p = ok p
assign_if_found t (some g) p = assign_generator_to_group t g p

-- `addToGroup`
unfoldable pub add_to_group : ℕ → ℤ → ThreadPool → Result ThreadPool
add_to_group t (negsuc n) p = ok p
add_to_group t (pos i) p =
    if i == private_thread
    then use_private_thread_for t p
    else if i == default_group_id
    then use_default_thread_for t p
    else assign_if_found t (find_group (λ g. id_of p g == i) p.groups) p

-- `createGroup`: an id above 0 is taken, any other is replaced by the next one.
unfoldable pub create_group : ℕ → ℤ → ThreadPool → ThreadPool
create_group name (pos (suc i)) p =
    make_group (suc i) name (with_id (suc i) p.world.groups.next_id) p
create_group name _ p = let i = p.world.groups.next_id in make_group i name (suc i) p

-- What `createNewGroupFor` does, by whether there is a group of this name.
unfoldable pub join_or_create : ℕ → ℕ → Option ℕ → ThreadPool → Result ThreadPool
join_or_create t name (some g) p = assign_generator_to_group t g p
join_or_create t name none p =
    assign_generator_to_group t p.world.groups.next_group (create_group name minus_one p)

-- `createNewGroupFor`
unfoldable pub create_new_group_for : ℕ → ℕ → ThreadPool → Result ThreadPool
create_new_group_for t name p =
    join_or_create t name (find_group (λ g. p.world.groups.name g == name) p.groups) p

abbrev pub unassign : ℕ → (ℕ → Option ℕ) → ℕ → Option ℕ
unassign t a = update a t none

-- `ThreadPool::remove`
unfoldable pub remove_generator_from_pool : ℕ → ThreadPool → ThreadPool
remove_generator_from_pool t p = record p {
  world = detach t p.world;
  assignment = unassign t p.assignment;
}

-- `ThreadPool::add`
unfoldable pub add_to_pool : ℕ → ThreadPool → Result ThreadPool
add_to_pool t p =
    if p.enable_threading && not p.grouping
    then use_private_thread_for t p
    else use_default_thread_for t p
