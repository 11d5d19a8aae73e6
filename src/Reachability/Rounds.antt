-- ===== src/Reachability/Rounds.antt =====
-- Rounds of the loop of `propagate_all`: none panics, and each keeps the balance.
use timely_mirror.Prelude.{
  ℕ, ◌%◌, fun_ext, zero, suc, ◌<◌, ◌≡◌, refl, sym, subst, ap, ◌∙◌, some, List, [], ◌∷◌, All,
  All-mono, and_then, Bool-cases, inl, inr, if◌then◌else◌, ◌==◌, ==_iff,
}
use timely_mirror.Order.{Eq, PartialOrder, Ord, IsExtension}
use timely_mirror.Order.Derived.{tuple_eq}
use timely_mirror.Int64.{wrapping_add, modulus}
use timely_mirror.Updates.{Updates, count}
use timely_mirror.Updates.Compact.{InRange, IsCompact-AllNonzero, AllNonzero-InRange}
use timely_mirror.Timestamp.{PathSummary}
use timely_mirror.MutableAntichain.{MutableAntichain, update_iter}
use timely_mirror.MutableAntichain.Update.{IsAccounted, update_iter-IsAccounted}
use timely_mirror.Location.{Location, location_eq, location_ord}
use timely_mirror.Reachability.{PortInformation, Tracker, Worklist, port_at, set_port}
use timely_mirror.Reachability.Loops.{successors, act, gather, round, rounds}
use timely_mirror.Reachability.Ports.{HasPort}
use timely_mirror.Reachability.Outflow.{total_size}
use timely_mirror.Reachability.Work.{
  count-gather, count-zero_entry, gather-lt, All-gather, All-pushed_work,
}
use timely_mirror.Reachability.Shape.{
  pointstamps_at, IsSteady, next, IsComplete, IsComplete-set_port, IsComplete-same,
  HasPort-set_port,
}
use timely_mirror.Reachability.Balance.{Balances, Reports, IsBalanced, active}
use timely_mirror.Reachability.Act.{pointstamps-acted, acted, act-eq, acted-Balances, acted-Reports}

pub IsAccounted-IsSteady {ℓ} :
    {A : Type ℓ} ⦃e : Eq A⦄ ⦃p : PartialOrder A⦄ ⦃o : Ord A⦄ (m n : MutableAntichain A)
    (us out : Updates A)
    → IsAccounted m us n out
    → IsSteady n
IsAccounted-IsSteady m n us out a = record { in_range = a.in_range; quiet = a.quiet }

module _ {κ ℓ} {S : Type κ} {T : Type ℓ} ⦃e : Eq T⦄ ⦃p : PartialOrder T⦄ ⦃o : Ord T⦄
    (extension : IsExtension T p o) (path : PathSummary S T) (ls : List Location)
    (base : Location → List T) (stamped : Location → T → ℕ) where
  -- What is left of a balanced tracker while one entry is off the worklist.
  record IsPending (tr : Tracker S T) (x : (T × Location) × ℕ) : Type (ℓ ⊔ κ) where
    complete : IsComplete path ls tr
    placed : All (λ u. HasPort tr.per_operator u.0.1) tr.worklist
    in_range : InRange tr.worklist
    balanced : Balances path ls tr (x ∷ tr.worklist)
    reported : Reports base tr
    stamps : (t : T) (l : Location) → count t (pointstamps_at tr l).updates ≡ stamped l t
    tally : tr.total_counts ≡ total_size (active tr) ls % modulus

  acted-IsBalanced :
      (tr : Tracker S T) (l : Location) (info : PortInformation S T) (n : MutableAntichain T)
      (out : Updates T) (t : T) (d : ℕ)
      → port_at tr.per_operator l ≡ some info
      → IsPending tr ((t, l), d)
      → IsAccounted info.implications ((t, d) ∷ []) n out
      → IsBalanced path ls base stamped (acted path tr l info n out)
  unfolding acted
  acted-IsBalanced tr l info n out t d h b a =
      let st = b.complete.steady l info h in
      let r = AllNonzero-InRange out (IsCompact-AllNonzero out a.compact) in
      let new_info : PortInformation S T = record info { implications = n } in
      let keeps = HasPort-set_port tr.per_operator l new_info info h in
      record {
        complete =
            IsComplete-same path ls
              (record tr { per_operator = set_port tr.per_operator l new_info })
              (acted path tr l info n out) refl refl
              (IsComplete-set_port path ls tr l new_info info h
                (record {
                  implications = IsAccounted-IsSteady info.implications n ((t, d) ∷ []) out a;
                  pointstamps = st.pointstamps;
                })
                (b.complete.projected l info h) b.complete);
        placed =
            All-pushed_work _ (next path tr l) out tr.worklist
              (All-mono _ _ out
                (λ u _.
                  All-mono _ _ (next path tr l u.0) (λ y q. keeps y.1 q)
                    (b.complete.arriving l (info, h) u.0))
                r)
              (All-mono _ _ tr.worklist (λ u q. keeps u.0.1 q) b.placed);
        in_range =
            All-pushed_work _ (next path tr l) out tr.worklist
              (All-mono _ _ out (λ u q. each_in_range (next path tr l u.0) u.1 q) r) b.in_range;
        balanced = acted-Balances path ls tr l info h b.complete n out t d a b.balanced;
        reported = acted-Reports path ls tr l info h b.complete n out t d a base b.reported;
        stamps = λ s k.
            ap (λ (m : MutableAntichain T). count s m.updates)
              (pointstamps-acted path ls tr l info h b.complete n out k)
            ∙ b.stamps s k;
        tally =
            b.tally
            ∙ ap (λ F. total_size F ls % modulus)
                (sym (
                  fun_ext (λ k.
                    ap (λ (m : MutableAntichain T). m.frontier)
                      (pointstamps-acted path ls tr l info h b.complete n out k))));
      }
    where
      each_in_range : (ys : List (T × Location)) (v : ℕ) → v < modulus → All (λ _. v < modulus) ys
      each_in_range [] v q = tt
      each_in_range (y ∷ ys) v q = (q, each_in_range ys v q)

  act-IsBalanced :
      (tr : Tracker S T) (l : Location) (t : T) (d : ℕ)
      → d < modulus
      → HasPort tr.per_operator l
      → IsPending tr ((t, l), d)
      → (new : Tracker S T) × (act path tr l t d ≡ some new) × IsBalanced path ls base stamped new
  act-IsBalanced tr l t d r (info, h) b =
      let st = (b.complete.steady l info h).implications in
      (
        acted path tr l info (update_iter info.implications ((t, d) ∷ [])).0
            (update_iter info.implications ((t, d) ∷ [])).1,
        act-eq path ls tr l info h b.complete t d,
        acted-IsBalanced tr l info _ _ t d h b (
            update_iter-IsAccounted extension info.implications ((t, d) ∷ []) st.in_range (r, tt)
              st.quiet),
      )

  round-eq :
      (tr : Tracker S T) (t : T) (l : Location) (d : ℕ) (rest : Worklist T)
      → tr.worklist ≡ ((t, l), d) ∷ rest
      → round path tr ≡ (
          if (gather t l d rest).0 == 0
          then some (record tr { worklist = (gather t l d rest).1 })
          else act path (record tr { worklist = (gather t l d rest).1 }) l t (gather t l d rest).0)
  unfolding round
  round-eq tr t l d rest q = rw q refl

  -- The tracker once the equal entries are gathered.
  gathered-IsPending :
      (tr : Tracker S T) (t : T) (l : Location) (d : ℕ) (rest : Worklist T)
      → tr.worklist ≡ ((t, l), d) ∷ rest
      → IsBalanced path ls base stamped tr
      → IsPending (record tr { worklist = (gather t l d rest).1 }) ((t, l), (gather t l d rest).0)
  unfolding successors
  gathered-IsPending tr t l d rest q b = record {
    complete =
        IsComplete-same path ls tr (record tr { worklist = (gather t l d rest).1 }) refl refl
          b.complete;
    placed =
        All-gather _ t l d rest (subst (All (λ u. HasPort tr.per_operator u.0.1)) q b.placed).1;
    in_range = All-gather _ t l d rest (subst InRange q b.in_range).1;
    balanced = λ s k.
        ap (wrapping_add _) (count-gather (s, k) t l d rest ∙ ap (count (s, k)) (sym q))
        ∙ b.balanced s k;
    reported = b.reported;
    stamps = b.stamps;
    tally = b.tally;
  }

  -- A round does not panic, and keeps the balance.
  pub round-IsBalanced :
      (tr : Tracker S T)
      → IsBalanced path ls base stamped tr
      → (new : Tracker S T) × (round path tr ≡ some new) × IsBalanced path ls base stamped new
  unfolding round successors
  round-IsBalanced tr b = by_work tr.worklist refl
    where
      settled :
          (w : Tracker S T) (t : T) (l : Location) (d : ℕ)
          → d ≡ 0
          → IsPending w ((t, l), d)
          → IsBalanced path ls base stamped w
      settled w t l d z c = record {
        complete = c.complete;
        placed = c.placed;
        in_range = c.in_range;
        balanced = λ s k.
            ap (wrapping_add _) (count-zero_entry (s, k) t l d w.worklist z) ∙ c.balanced s k;
        reported = c.reported;
        stamps = c.stamps;
        tally = c.tally;
      }

      by_work :
          (w : Worklist T)
          → tr.worklist ≡ w
          → (new : Tracker S T) × (round path tr ≡ some new) × IsBalanced path ls base stamped new
      by_work [] q = (tr, rw q refl, b)
      by_work (((t, l), d) ∷ rest) q =
          let c = gathered-IsPending tr t l d rest q b in
          let r = gather-lt t l d rest (subst InRange q b.in_range).0 in
          let here_too = (subst (All (λ u. HasPort tr.per_operator u.0.1)) q b.placed).0 in
          elim (Bool-cases ((gather t l d rest).0 == 0)) [
            | inl none_left ↦ (
              record tr { worklist = (gather t l d rest).1 },
              round-eq tr t l d rest q ∙ rw none_left refl,
              settled (record tr { worklist = (gather t l d rest).1 }) t l (gather t l d rest).0
                  ((==_iff _ 0).0 none_left) c,
            )
            | inr left ↦
                let (new, runs, kept) =
                  act-IsBalanced (record tr { worklist = (gather t l d rest).1 }) l t
                    (gather t l d rest).0 r here_too c in
                (new, round-eq tr t l d rest q ∙ rw left runs, kept)
          ]

  pub rounds-IsBalanced :
      (n : ℕ) (tr : Tracker S T)
      → IsBalanced path ls base stamped tr
      → (new : Tracker S T) × (rounds path n tr ≡ some new) × IsBalanced path ls base stamped new
  unfolding rounds
  rounds-IsBalanced zero tr b = (tr, refl, b)
  rounds-IsBalanced (suc n) tr b =
      let (mid, runs, kept) = round-IsBalanced tr b in
      let (new, later, still) = rounds-IsBalanced n mid kept in
      (new, ap (λ x. and_then x (rounds path n)) runs ∙ later, still)
