-- ===== src/Reachability/Work.antt =====
-- What the loops of `propagate_all` do to the worklist and to the reported changes.
use timely_mirror.Prelude.{
  ℕ, ◌<◌, ◌≡◌, ◌≢◌, refl, sym, ap, ◌∙◌, true, List, [], ◌∷◌, All, ◌&&◌, arith, Bool-cases, inl, inr,
}
use timely_mirror.Order.{Eq, Ord, eq_refl, eq-eq_of_ne}
use timely_mirror.Order.Derived.{tuple_eq, tuple_ord}
use timely_mirror.Int64.{
  wrapping_add, modulus, wrapping_add-lt, wrapping_add_left_comm, zero-wrapping_add,
  wrapping_add_assoc,
}
use timely_mirror.Updates.{Updates, count, each, sort_insert}
use timely_mirror.Updates.Counts.{count-lt, count-append, count-sort_insert, count_of_absent}
use timely_mirror.Updates.Linear.{pass_on}
use timely_mirror.Updates.Keys.{All-sort_insert}
use timely_mirror.ChangeBatch.{ChangeBatch}
use timely_mirror.ChangeBatch
use timely_mirror.ChangeBatch.Totals.{total, total-update}
use timely_mirror.Location.{Location, location_eq, location_ord}
use timely_mirror.Reachability.{Worklist}
use timely_mirror.Reachability.Loops.{push_all, gather}

module _ {ℓ} {T : Type ℓ} ⦃e : Eq T⦄ where
  pub count-pending_same :
      (s t : T) (l : Location) (d : ℕ)
      → count {A = T × Location} (s, l) (((t, l), d) ∷ []) ≡ count s ((t, d) ∷ [])
  unfolding count
  count-pending_same s t l d = ground (arith, eq_refl l)

  pub count-pending_other :
      (s t : T) (l k : Location) (d : ℕ)
      → l ≢ k
      → count {A = T × Location} (s, k) (((t, l), d) ∷ []) ≡ 0
  count-pending_other s t l k d ne =
      count_of_absent (s, k) (((t, l), d) ∷ []) ((λ h. ne (ap (λ (y : T × Location). y.1) h)), tt)

module _ {ℓ} {T : Type ℓ} ⦃e : Eq T⦄ ⦃o : Ord T⦄ where
  pub count-push_all :
      (y : T × Location) (next : List (T × Location)) (d : ℕ) (w : Worklist T)
      → count y (push_all next d w) ≡ wrapping_add (count y (each next d)) (count y w)
  unfolding push_all count
  count-push_all y [] d w = sym (zero-wrapping_add _ (count-lt y w))
  count-push_all y (x ∷ next) d w =
      count-push_all y next d (sort_insert (x, d) w)
      ∙ ap (wrapping_add (count y (each next d)))
          (count-sort_insert y (x, d) w ∙ count-append y ((x, d) ∷ []) w)
      ∙ wrapping_add_left_comm _ _ _
      ∙ sym (wrapping_add_assoc _ _ _)
      ∙ ap (λ n. wrapping_add n (count y w)) (sym (count-append y ((x, d) ∷ []) (each next d)))

  -- The worklist after the loop over some changes, and the batch of reported changes.
  unfoldable pub pushed_work : (T → List (T × Location)) → Updates T → Worklist T → Worklist T
  pushed_work next [] w = w
  pushed_work next ((t, d) ∷ us) w = pushed_work next us (push_all (next t) d w)

  unfoldable pub reported_changes :
      Location → Updates T → ChangeBatch (Location × T) → ChangeBatch (Location × T)
  reported_changes l [] b = b
  reported_changes l ((t, d) ∷ us) b = reported_changes l us (ChangeBatch.update b (l, t) d)

  pub count-pushed_work :
      (y : T × Location) (next : T → List (T × Location)) (us : Updates T) (w : Worklist T)
      → count y (pushed_work next us w) ≡ wrapping_add (count y (pass_on next us)) (count y w)
  unfolding pushed_work pass_on count
  count-pushed_work y next [] w = sym (zero-wrapping_add _ (count-lt y w))
  count-pushed_work y next ((t, d) ∷ us) w =
      count-pushed_work y next us (push_all (next t) d w)
      ∙ ap (wrapping_add (count y (pass_on next us))) (count-push_all y (next t) d w)
      ∙ wrapping_add_left_comm _ _ _
      ∙ sym (wrapping_add_assoc _ _ _)
      ∙ ap (λ n. wrapping_add n (count y w))
          (sym (count-append y (each (next t) d) (pass_on next us)))

  pub total-reported_same :
      (s : T) (l : Location) (us : Updates T) (b : ChangeBatch (Location × T))
      → total (l, s) (reported_changes l us b) ≡ wrapping_add (total (l, s) b) (count s us)
  unfolding reported_changes count wrapping_add
  total-reported_same s l [] b = omega (arith, count-lt (l, s) b.updates)
  total-reported_same s l ((t, d) ∷ us) b = ground (
    arith,
    total-reported_same s l us (ChangeBatch.update b (l, t) d),
    total-update (l, s) b (l, t) d,
    eq_refl l,
  )

  pub total-reported_other :
      (s : T) (l k : Location) (us : Updates T) (b : ChangeBatch (Location × T))
      → l ≢ k
      → total (k, s) (reported_changes l us b) ≡ total (k, s) b
  unfolding reported_changes
  total-reported_other s l k [] b ne = refl
  total-reported_other s l k ((t, d) ∷ us) b ne =
      total-reported_other s l k us (ChangeBatch.update b (l, t) d) ne
      ∙ total-update (k, s) b (l, t) d
      ∙ rw (eq-eq_of_ne l k ne) refl

  -- Two neighbouring entries with one time and location count like one with their sum.
  count-merged :
      (y : T × Location) (t s : T) (l k : Location) (d c : ℕ) (w : Worklist T)
      → (e.eq s t && location_eq.eq k l) ≡ true
      → count y (((t, l), wrapping_add d c) ∷ w) ≡ count y (((t, l), d) ∷ ((s, k), c) ∷ w)
  unfolding count
  count-merged y t s l k d c w same =
      let hs = (e.eq_iff s t).0 (ground arith) in
      let hk = (location_eq.eq_iff k l).0 (ground arith) in
      rw (hs, hk) (ground (arith, wrapping_add_assoc d c (count y w)))

  -- What the loop over equal entries gathers is what they add up to.
  pub count-gather :
      (y : T × Location) (t : T) (l : Location) (d : ℕ) (w : Worklist T)
      → count y (((t, l), (gather t l d w).0) ∷ (gather t l d w).1) ≡ count y (((t, l), d) ∷ w)
  unfolding gather
  count-gather y t l d [] = refl
  count-gather y t l d (((s, k), c) ∷ w) = elim (Bool-cases (e.eq s t && location_eq.eq k l)) [
    | inl same ↦
        rw same (count-gather y t l (wrapping_add d c) w ∙ count-merged y t s l k d c w same)
    | inr other ↦ rw other refl
  ]

  pub count-zero_entry :
      (y : T × Location) (t : T) (l : Location) (d : ℕ) (w : Worklist T)
      → d ≡ 0
      → count y w ≡ count y (((t, l), d) ∷ w)
  unfolding count wrapping_add
  count-zero_entry y t l d w z = ground (arith, count-lt y w)

  pub gather-lt :
      (t : T) (l : Location) (d : ℕ) (w : Worklist T) → d < modulus → (gather t l d w).0 < modulus
  unfolding gather
  gather-lt t l d [] h = h
  gather-lt t l d (((s, k), c) ∷ w) h = elim (Bool-cases (e.eq s t && location_eq.eq k l)) [
    | inl same ↦ rw same (gather-lt t l (wrapping_add d c) w (wrapping_add-lt d c))
    | inr other ↦ rw other h
  ]

  pub All-gather {κ} :
      (P : (T × Location) × ℕ → Type κ) (t : T) (l : Location) (d : ℕ) (w : Worklist T)
      → All P w
      → All P (gather t l d w).1
  unfolding gather
  All-gather P t l d [] h = tt
  All-gather P t l d (((s, k), c) ∷ w) h = elim (Bool-cases (e.eq s t && location_eq.eq k l)) [
    | inl same ↦ rw same (All-gather P t l (wrapping_add d c) w h.1)
    | inr other ↦ rw other h
  ]

  All-push_all {κ} :
      (P : (T × Location) × ℕ → Type κ) (next : List (T × Location)) (d : ℕ) (w : Worklist T)
      → All (λ y. P (y, d)) next
      → All P w
      → All P (push_all next d w)
  unfolding push_all
  All-push_all P [] d w a h = h
  All-push_all P (y ∷ next) d w a h =
      All-push_all P next d (sort_insert (y, d) w) a.1 (All-sort_insert P (y, d) w a.0 h)

  pub All-pushed_work {κ} :
      (P : (T × Location) × ℕ → Type κ) (next : T → List (T × Location)) (us : Updates T)
      (w : Worklist T)
      → All (λ u. All (λ y. P (y, u.1)) (next u.0)) us
      → All P w
      → All P (pushed_work next us w)
  unfolding pushed_work
  All-pushed_work P next [] w a h = h
  All-pushed_work P next ((t, d) ∷ us) w a h =
      All-pushed_work P next us (push_all (next t) d w) a.1 (All-push_all P (next t) d w a.0 h)
