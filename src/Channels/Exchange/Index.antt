-- ===== src/Channels/Exchange/Index.antt =====
-- The index of a record is its hash by the number of pushers, with the mask as with the remainder.
use timely_mirror.Prelude.{
  ℕ, ◌+◌, ◌-◌, ◌%◌, ◌≤◌, ◌<◌, ◌≡◌, refl, ap, ◌∙◌, ◌==◌, Bool-cases, inl, inr, ==_iff, arith,
}
use Prim.Native.Nat.{bit_and}
use timely_mirror.Prelude.Bits.{bit_and-mask}
use timely_mirror.Int64.{modulus}
use timely_mirror.Channels.Exchange.{index_of}

module _ {ℓ κ} {T : Type ℓ} {D : Type κ} (hash_func : T → D → ℕ) where
  pub index_of_lem :
      (peers : ℕ) (time : T) (datum : D)
      → 1 ≤ peers
      → peers < modulus
      → index_of hash_func peers time datum ≡ hash_func time datum % peers
  unfolding index_of
  index_of_lem peers time datum some_peers fits =
      let h = hash_func time datum in
      let mask = (peers + modulus - 1) % modulus in
      let less : mask ≡ peers - 1 = omega (arith, some_peers, fits) in
      elim (Bool-cases (bit_and peers mask == 0)) [
        | inl power ↦ rw power (
            ap (bit_and h) less
            ∙ bit_and-mask peers h some_peers
                (omega (arith, ap (bit_and peers) less, (==_iff (bit_and peers mask) 0).0 power)))
        | inr other ↦ rw other refl
      ]

  pub index_of-lt :
      (peers : ℕ) (time : T) (datum : D)
      → 1 ≤ peers
      → peers < modulus
      → index_of hash_func peers time datum < peers
  index_of-lt peers time datum some_peers fits =
      let same = index_of_lem peers time datum some_peers fits in grind (arith, same, some_peers)
