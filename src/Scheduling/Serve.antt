-- ===== src/Scheduling/Serve.antt =====
-- csapex_core/src/scheduling/thread_pool.cpp: the requests that move a generator between groups, and a
-- proof that a pool serves every sequence of them.
use csapex.Base.{
  ℕ, ◌≡◌, ◌≢◌, refl, sym, subst, ◌==◌, ==_refl, ◌&&◌, not, Bool, true, false, List, [], ◌∷◌, none,
  if◌then◌else◌, All,
}
use csapex.Base.Int.{ℤ, pos, negsuc}
use csapex.Base.Result.{Result, ok, ◌>>=◌, Ensures, Ensures-ok, Ensures-mono, Ensures-bind}
use csapex.Scheduling.Membership.{IsPool}
use csapex.Scheduling.Assignment.{Assigned}
use csapex.Scheduling.Pool.{
  ThreadPool, find_group, is_in_group, use_private_thread_for, use_default_thread_for, add_to_group,
  create_new_group_for, add_to_pool, remove_generator_from_pool,
}
use csapex.Scheduling.Upkeep.{remove_generator-IsPool}
use csapex.Scheduling.Requests.{
  use_private-Assigned, use_default-Assigned, add_to_group-Grouped, Joined, may_join, number_of,
  create_new_group_for-Placed,
}

-- What a request may ask of the pool, as commands, views and `loadSettings` do.
pub data Request : Type 0 where
  to_private : ℕ → Request
  to_default : ℕ → Request
  to_group : ℕ → ℤ → Request
  to_new_group : ℕ → ℕ → Request
  enter : ℕ → Request
  leave : ℕ → Request

unfoldable pub serve : Request → ThreadPool → Result ThreadPool
serve (to_private t) p = use_private_thread_for t p
serve (to_default t) p = use_default_thread_for t p
serve (to_group t i) p = add_to_group t i p
serve (to_new_group t name) p = create_new_group_for t name p
serve (enter t) p = add_to_pool t p
serve (leave t) p = ok (remove_generator_from_pool t p)

unfoldable pub serve_all : List Request → ThreadPool → Result ThreadPool
serve_all [] p = ok p
serve_all (r ∷ rs) p = serve r p >>= serve_all rs

-- The generator that a request is about
abbrev pub subject : Request → ℕ
subject (to_private t) = t
subject (to_default t) = t
subject (to_group t i) = t
subject (to_new_group t name) = t
subject (enter t) = t
subject (leave t) = t

-- Where the generator of a request is afterwards. A number that no group has is not served, nor is a negative
-- one; a new group gets the number of the group of its name, if there is one, and else the next number.
abbrev pub Placed : Request → ThreadPool → ThreadPool → Type 0
Placed (to_private t) p p' = is_in_group t 0 p' ≡ true
Placed (to_default t) p p' = is_in_group t 1 p' ≡ true
Placed (to_group t (pos i)) p p' = Joined (may_join p i) t i p p'
Placed (to_group t (negsuc i)) p p' = p' ≡ p
Placed (to_new_group t name) p p' =
    is_in_group t (number_of p (find_group (λ g. p.world.groups.name g == name) p.groups)) p' ≡ true
Placed (enter t) p p' =
    is_in_group t (if p.enable_threading && not p.grouping then 0 else 1) p' ≡ true
Placed (leave t) p p' = p'.assignment t ≡ none

-- A new group must not be given the name of a generator: the generator's private group has it.
abbrev pub NamesNoGenerator : (ℕ → ℕ) → Request → Type 0
NamesNoGenerator short_name (to_new_group t name) = (u : ℕ) → name ≢ short_name u
NamesNoGenerator short_name _ = Unit

pub record Served (r : Request) (p p' : ThreadPool) : Type 0 where
  pub valid : IsPool p'
  pub placed : Placed r p p'
  pub others : (u : ℕ) → (subject r == u) ≡ false → p'.assignment u ≡ p.assignment u
  pub short_names : p'.short_name ≡ p.short_name

enter-Served :
    (t : ℕ) (p : ThreadPool) (c : Bool)
    → IsPool p
    → Ensures
        (Assigned t (if c then 0 else 1) p)
        (if c then use_private_thread_for t p else use_default_thread_for t p)
enter-Served t p true valid = use_private-Assigned p valid t
enter-Served t p false valid = use_default-Assigned p valid t

-- Where the pool is in order, and a new group is not given the name of a generator, a request is
-- served: no assertion fails, the pool stays in order, and no other generator has moved. The generator is in
-- a private group, in the default group, in a group of the number that was asked for, if there is one, or in
-- one of the number of the group of that name, or of the next number if there is none; it has no group
-- after it left; and a request for a number that no group has, the private one aside, changes nothing.
pub serve-Served :
    (r : Request) (p : ThreadPool)
    → IsPool p
    → NamesNoGenerator p.short_name r
    → Ensures (Served r p) (serve r p)
unfolding serve add_to_pool remove_generator_from_pool add_to_group
serve-Served (to_private t) p valid n =
    Ensures-mono (use_private_thread_for t p) (use_private-Assigned p valid t) λ p' a. record {
      valid = a.valid;
      placed = a.placed;
      others = a.others;
      short_names = a.short_names;
    }
serve-Served (to_default t) p valid n =
    Ensures-mono (use_default_thread_for t p) (use_default-Assigned p valid t) λ p' a. record {
      valid = a.valid;
      placed = a.placed;
      others = a.others;
      short_names = a.short_names;
    }
serve-Served (to_group t (negsuc i)) p valid n =
    Ensures-ok p (record { valid = valid; placed = refl; others = λ u k. refl; short_names = refl })
serve-Served (to_group t (pos i)) p valid n =
    Ensures-mono (add_to_group t (pos i) p) (add_to_group-Grouped p valid t i) λ p' a. record {
      valid = a.valid;
      placed = a.joined;
      others = a.others;
      short_names = a.short_names;
    }
serve-Served (to_new_group t name) p valid n =
    Ensures-mono (create_new_group_for t name p) (create_new_group_for-Placed p valid t name n)
      λ p' a. record {
        valid = a.valid;
        placed = a.placed;
        others = a.others;
        short_names = a.short_names;
      }
serve-Served (enter t) p valid n =
    Ensures-mono (add_to_pool t p) (enter-Served t p (p.enable_threading && not p.grouping) valid)
      λ p' a. record {
        valid = a.valid;
        placed = a.placed;
        others = a.others;
        short_names = a.short_names;
      }
serve-Served (leave t) p valid n = Ensures-ok (remove_generator_from_pool t p) (record {
  valid = remove_generator-IsPool p valid t;
  placed = rw (==_refl t) refl;
  others = λ u k. rw k refl;
  short_names = refl;
})

-- A sequence of requests is served without a failed assertion, and leaves the pool in order.
pub serve_all-IsPool :
    (rs : List Request) (p : ThreadPool)
    → IsPool p
    → All (NamesNoGenerator p.short_name) rs
    → Ensures IsPool (serve_all rs p)
unfolding serve_all
serve_all-IsPool [] p valid n = Ensures-ok p valid
serve_all-IsPool (r ∷ rs) p valid n =
    Ensures-bind (serve r p) (serve_all rs) (serve-Served r p valid n.0) λ p' s.
      serve_all-IsPool rs p' s.valid
        (subst (λ names. All (NamesNoGenerator names) rs) (sym s.short_names) n.1)
