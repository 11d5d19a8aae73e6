-- ===== src/Antichain/Ref.antt =====
-- `AntichainRef` of timely/src/progress/frontier.rs: a borrowed slice of elements.
use timely_mirror.Prelude.{Bool, List, any, all}
use timely_mirror.Order.{Eq, PartialOrder}
use timely_mirror.Antichain.{Antichain, same_elements}

pub record AntichainRef {ℓ} (A : Type ℓ) : Type ℓ where
  pub frontier : List A

module _ {ℓ} {A : Type ℓ} where
  abbrev pub new : List A → AntichainRef A
  new frontier = record { frontier = frontier }

  abbrev pub to_owned : AntichainRef A → Antichain A
  to_owned r = record { elements = r.frontier }

  abbrev pub borrow : Antichain A → AntichainRef A
  borrow a = new a.elements

module _ {ℓ} {A : Type ℓ} ⦃p : PartialOrder A⦄ where
  abbrev pub less_than : AntichainRef A → A → Bool
  less_than r time = any (λ x. p.less_than x time) r.frontier

  abbrev pub less_equal : AntichainRef A → A → Bool
  less_equal r time = any (λ x. p.less_equal x time) r.frontier

  abbrev pub ref_less_equal : AntichainRef A → AntichainRef A → Bool
  ref_less_equal r other = all (λ t2. any (λ t1. p.less_equal t1 t2) r.frontier) other.frontier

module _ {ℓ} {A : Type ℓ} ⦃e : Eq A⦄ where
  abbrev pub ref_eq : AntichainRef A → AntichainRef A → Bool
  ref_eq r other = same_elements r.frontier other.frontier
