-- ===== src/Scheduling/Clash.antt =====
-- A proof about csapex_core/src/scheduling/thread_pool.cpp: `createNewGroupFor` finds private groups too.
use csapex.Base.{
  ℕ, ◌≡◌, refl, ap, ◌∙◌, ◌==◌, ==_iff, ==_refl, ==_not, true, false, List, [], ◌∷◌, Option, none,
  some, elem, update, Bool-cases, inl, inr, arith,
}
use csapex.Base.Result.{ok, failed}
use csapex.Scheduling.{SchedulingState}
use csapex.Scheduling.Queue.{is_empty}
use csapex.Scheduling.Membership.{IsPool, Agrees, assigned_to, Moved, assign_to_scheduler-Moved}
use csapex.Scheduling.Pool.{
  ThreadPool, id_of, private_thread, is_in_group, has_id, remove_from, remove_group, leave_group,
  assign_generator_to_group, use_default_thread_for, find_group, join_or_create,
  create_new_group_for,
}

member_not_empty :
    (g u : ℕ) (w : SchedulingState) → elem u (w.groups.generators g) ≡ true → is_empty g w ≡ false
member_not_empty g u w m = occupied (w.groups.generators g) m
  where
    occupied : (ts : List ℕ) → elem u ts ≡ true → (elim ts [ [] ↦ true | r ∷ rs ↦ false ]) ≡ false
    occupied [] h = cc h
    occupied (r ∷ rs) h = refl

remove_from-fails :
    (g : ℕ) (w : SchedulingState) (xs : List ℕ)
    → elem g xs ≡ true
    → is_empty g w ≡ false
    → remove_from g w xs ≡ failed
unfolding remove_from
remove_from-fails g w [] m e = cc m
remove_from-fails g w (x ∷ xs) m e = elim (Bool-cases (x == g)) [
  | inl q ↦ rw (q, e) refl
  | inr q ↦ rw q (rw (remove_from-fails g w xs (ground (arith, m, q)) e) refl)
]

-- Moving a generator to a group of another number, as far as the group that it leaves.
assign_again :
    (p : ThreadPool) (t g : ℕ)
    → Agrees p
    → is_in_group t (id_of p g) p ≡ false
    → (w : SchedulingState) × Moved p t g w
      × (assign_generator_to_group t g p
          ≡ leave_group
              (p.assignment t)
              (record p { world = w; assignment = update p.assignment t (some g) }))
unfolding assign_generator_to_group
assign_again p t g tables elsewhere =
    let e = assign_to_scheduler-Moved p tables t g in
    (e.value, e.holds, rw (elsewhere, e.returns) refl)

shared_kept :
    (p : ThreadPool) (old : Option ℕ) → has_id (id_of p) 0 old ≡ false → leave_group old p ≡ ok p
unfolding leave_group
shared_kept p none e = refl
shared_kept p (some o) e = rw e refl

module _ (p : ThreadPool) (a b g : ℕ) (valid : IsPool p) (at_g : p.assignment a ≡ some g)
    (i : id_of p g ≡ private_thread) (differ : (a == b) ≡ false) (w : SchedulingState)
    (m : Moved p b g w) where
  abbrev with_both : ThreadPool
  with_both = record p { world = w; assignment = update p.assignment b (some g) }

  a_stays : with_both.assignment a ≡ some g
  a_stays = rw (==_not a b differ) at_g

  b_joins : with_both.assignment b ≡ some g
  b_joins = rw (==_refl b) refl

  private_yet : w.groups.id g ≡ 0
  private_yet = ap (λ k. k g) m.id ∙ i

  not_default : is_in_group a (id_of with_both p.default_group) with_both ≡ false
  not_default =
      let def : w.groups.id p.default_group ≡ 1 =
        ap (λ k. k p.default_group) m.id ∙ valid.default_id in
      ap (has_id w.groups.id (w.groups.id p.default_group)) a_stays
      ∙ ground (arith, private_yet, def)

  -- The private group still has `b` when `a` has left it.
  module _ (w2 : SchedulingState) (m2 : Moved with_both a p.default_group w2) where
    b_left : is_empty g w2 ≡ false
    b_left =
        let in_g : assigned_to g (update with_both.assignment a (some p.default_group) b) ≡ true =
          rw differ (ap (assigned_to g) b_joins ∙ ==_refl g) in
        member_not_empty g b w2 (m2.listed g b ∙ in_g)

    private_still : (w2.groups.id g == private_thread) ≡ true
    private_still = (==_iff (w2.groups.id g) 0).1 (ap (λ k. k g) m2.id ∙ private_yet)

    leave_fails :
        (q : ThreadPool) → q.world ≡ w2 → q.groups ≡ p.groups → leave_group (some g) q ≡ failed
    unfolding leave_group remove_group
    leave_fails q e f =
        let here : is_empty g q.world ≡ false = rw e b_left in
        let listed : elem g q.groups ≡ true = rw f (valid.known a g at_g) in
        let still : (id_of q g == private_thread) ≡ true = rw e private_still in
        rw (still, remove_from-fails g q.world q.groups listed here) refl

  then_fails : assign_generator_to_group a p.default_group with_both ≡ failed
  then_fails =
      let tables : Agrees with_both = record { agree = m.agree; listed = m.listed } in
      let second = assign_again with_both a p.default_group tables not_default in
      second.2
      ∙ ap
          (λ o. leave_group o (record with_both {
            world = second.0;
            assignment = update with_both.assignment a (some p.default_group);
          }))
          a_stays
      ∙ leave_fails second.0 second.1 _ refl refl

  joins :
      has_id (id_of p) 0 (p.assignment b) ≡ false
      → leave_group (p.assignment b) with_both ≡ ok with_both
  joins shared =
      shared_kept with_both (p.assignment b) (ap (λ k. has_id k 0 (p.assignment b)) m.id ∙ shared)

-- A generator `a` runs in a private group, the first group of its name. If a group of that name is asked
-- for another generator `b`, which is in no private group, then `b` joins the private group, in which `a`
-- still is; moving `a` to the default group afterwards fails an assertion.
pub create_new_group_for_clashes :
    (p : ThreadPool) (a b g name : ℕ)
    → IsPool p
    → p.assignment a ≡ some g
    → id_of p g ≡ private_thread
    → find_group (λ h. p.world.groups.name h == name) p.groups ≡ some g
    → is_in_group b private_thread p ≡ false
    → (a == b) ≡ false
    → (p' : ThreadPool) × (create_new_group_for b name p ≡ ok p')
      × (p'.assignment a ≡ some g)
      × (p'.assignment b ≡ some g)
      × (id_of p' g ≡ private_thread)
      × (use_default_thread_for a p' ≡ failed)
unfolding create_new_group_for join_or_create use_default_thread_for
create_new_group_for_clashes p a b g name valid at_g i found shared differ =
    let first = assign_again p b g valid.tables (rw i shared) in
    let joined = joins p a b g valid at_g i differ first.0 first.1 shared in
    let fails = then_fails p a b g valid at_g i differ first.0 first.1 in
    (
      with_both p a b g valid at_g i differ first.0 first.1,
      rw (found, join_or_create) (first.2 ∙ joined),
      a_stays p a b g valid at_g i differ first.0 first.1,
      b_joins p a b g valid at_g i differ first.0 first.1,
      private_yet p a b g valid at_g i differ first.0 first.1,
      fails,
    )
